-- ===== src/UserData/Objects/Uses.antt =====
-- Pushes and deletions of clients in any order, with Lua code in between: no Lua object dangles.
use mathlib.Core.Path.{subst}
use gmod_queue.Base.{
  ℕ, ℤ, ◌≡◌, sym, ap, ◌∙◌, ◌≢◌, inl, inr, ◌==◌, ==_iff, ==→ne, eqb_ℤ→eq, Bool-cases, true,
}
use gmod_queue.World.State.{World}
use gmod_queue.World.Host.{Host}
use gmod_queue.World.Laws.{ReferenceLaws}
use gmod_queue.UserData.{push_client, delete_client}
use gmod_queue.UserData.Objects.{Objects, ObjectLaws}
use gmod_queue.ClientApi.Handle.{IsHandle, handle_at, right_type}
use gmod_queue.UserData.Objects.Tidy.{
  IsRespectful, IsTidy, respectful-IsTidy, push_client-IsTidy, delete_client-IsTidy,
}

-- From one state to another by pushes and deletions of clients and by Lua code.
pub data Uses {L : Type 0} ⦃host : Host L⦄ (objects : Objects L) : World L → World L → Type 0 where
  over : {w : World L} → Uses objects w w
  pushed :
      {w v w' : World L} (c : ℕ) → (push_client c w).1 ≡ v → Uses objects v w' → Uses objects w w'
  deleted :
      {w v w' : World L} (c : ℕ) → (delete_client c w).1 ≡ v → Uses objects v w' → Uses objects w w'
  computed :
      {w v w' : World L} (l : L)
      → IsRespectful objects w.lua l
      → record w { lua = l } ≡ v
      → Uses objects v w'
      → Uses objects w w'

module _ {L : Type 0} ⦃host : Host L⦄ (objects : Objects L)
    (references : ReferenceLaws host.lua_api) (t : ℤ) (laws : ObjectLaws objects host.lua_api t)
    (typed : t ≢ host.type_nil) where
  -- Where nothing dangles, whatever Lua code passes as a client is one that a method may take.
  tidy-IsHandle :
      (w : World L) → IsTidy objects t w → (i : ℤ) → right_type i w ≡ true → IsHandle i w
  tidy-IsHandle w tidy i right =
      let type : host.get_type i w.lua ≡ t = eqb_ℤ→eq _ _ right ∙ sym tidy.of_type in
      let (o, _, points) = laws.typed_object i w.lua type in
      let at : handle_at i w ≡ objects.pointer w.lua o =
        ap (λ x. host.get_user_type i x w.lua) (sym tidy.of_type) ∙ points in
      elim (Bool-cases (handle_at i w == 0)) [
        | inl null ↦ inl ((==_iff (handle_at i w) 0).0 null)
        | inr real ↦
            let live = ==→ne (handle_at i w) 0 real in
            let (_, d, r, _) = tidy.tie.tied o (λ null. live (at ∙ null)) in
            inr (live, (d, ap w.user_data at ∙ r.allocated))
      ]

  -- Whatever the order in which clients are pushed and deleted, with Lua code in between that
  -- respects pointers and references: from a state of the main thread with Lua up, the registry in
  -- order and no dangling object, it is so in the end. Then each object of the clients' type
  -- carries NULL or the box of a registered client, whose reference keeps that object and no
  -- other; and whatever argument of a method is of the clients' type holds NULL or an allocated
  -- box.
  pub Uses-IsTidy :
      {w w' : World L}
      → Uses objects w w'
      → IsTidy objects t w
      → IsTidy objects t w' × ((i : ℤ) → right_type i w' ≡ true → IsHandle i w')
  Uses-IsTidy {w} over tidy = (tidy, tidy-IsHandle w tidy)
  Uses-IsTidy (pushed {w = w} c ran rest) tidy =
      let (v, same, after) = push_client-IsTidy objects references t laws typed w c tidy in
      Uses-IsTidy rest (subst (IsTidy objects t) (ap (λ x. x.1) (sym same) ∙ ran) after)
  Uses-IsTidy (deleted {w = w} c ran rest) tidy =
      let (v, same, after) = delete_client-IsTidy objects references t laws typed w c tidy in
      Uses-IsTidy rest (subst (IsTidy objects t) (ap (λ x. x.1) (sym same) ∙ ran) after)
  Uses-IsTidy (computed {w = w} l kept at rest) tidy =
      Uses-IsTidy rest (subst (IsTidy objects t) at (respectful-IsTidy objects t w l kept tidy))
