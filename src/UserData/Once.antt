-- ===== src/UserData/Once.antt =====
-- What a caller may rely on when it calls `Push_CBaseClient`: on every branch one value more on the
-- stack, a registry that is in order, and one Lua object for each client.
use mathlib.Core.Path.{subst}
use gmod_queue.Base.{
  ap, ℕ, ◌+◌, minus_one, ◌≡◌, refl, sym, ◌∙◌, ◌≢◌, inl, inr, Bool-cases, ==_iff, ==-ne, ◌==◌, true,
  none, some, Option-cases, arith, lookup, insert, ==→ne,
}
use gmod_queue.World.State.{World, UserData}
use gmod_queue.World.Host.{Host}
use gmod_queue.World.Laws.{StackLaws, ReferenceLaws}
use gmod_queue.World.Monad.{ok, >>=-ok}
use gmod_queue.World.Memory.{read_user_data, read_user_data-ok}
use gmod_queue.World.Interp.{g_lua_do-ok}
use gmod_queue.UserData.{push_new, push_found, push_client}
use gmod_queue.UserData.Registry.{IsRegistry}
use gmod_queue.UserData.Push.{IsPushed, push_new_lem, push_new-IsPushed, after_reference}

module _ {L : Type 0} ⦃host : Host L⦄ where
  -- `Push_CBaseClient` of NULL.
  pub push_client_null :
      (w : World L)
      → w.lua_set ≡ true
      → push_client 0 w ≡ (ok tt, record w { lua = host.push_nil w.lua })
  unfolding push_client
  push_client_null w set = g_lua_do-ok w set host.push_nil

  -- Of a client that is registered: its reference is pushed, and nothing else changes.
  pub push_client_known :
      (w : World L) (c u : ℕ) (d : UserData)
      → w.lua_set ≡ true
      → c ≢ 0
      → lookup c w.pushed ≡ some u
      → w.user_data u ≡ some d
      → push_client c w ≡ (ok tt, record w { lua = host.reference_push d.reference w.lua })
  unfolding push_client push_found
  push_client_known w c u d set real known here =
      rw (==-ne c 0 real, known)
        (>>=-ok (read_user_data u) _ (read_user_data-ok w u d here)
          ∙ g_lua_do-ok w set (host.reference_push d.reference))

  -- Of a client that is not.
  pub push_client_unknown :
      (w : World L) (c : ℕ) → c ≢ 0 → lookup c w.pushed ≡ none → push_client c w ≡ push_new c w
  unfolding push_client push_found
  push_client_unknown w c real unknown = rw (==-ne c 0 real, unknown)

-- A step that changes the interpreter alone keeps the registry.
lua-IsPushed :
    {L : Type 0} (w : World L) (c : ℕ) (l : L)
    → IsRegistry w
    → w.lua_set ≡ true
    → (c ≢ 0 → (u : ℕ) × (lookup c w.pushed ≡ some u))
    → IsPushed c w (record w { lua = l })
lua-IsPushed w c l reg set known = record {
  registry = record { keys = reg.keys; started = reg.started; boxed = reg.boxed };
  registered = known;
  others = λ j ne. refl;
  live = set;
  same_type = refl;
  same_thread = refl;
  same_clients = refl;
}

top_after_reference :
    {L : Type 0} ⦃host : Host L⦄ (stack : StackLaws host.lua_api) (w : World L) (c : ℕ)
    → host.top (after_reference c w).lua ≡ host.top w.lua + 1
top_after_reference {L} ⦃host⦄ stack w c =
    let boxed : L = host.push_user_type w.next_user_data w.client_type_id w.lua in
    let kept : L = (host.reference_create (host.create_table boxed)).1 in
    omega (
      arith,
      stack.push_user_type_top w.next_user_data w.client_type_id w.lua,
      stack.create_table_top boxed,
      stack.reference_create_top (host.create_table boxed),
      stack.push_value_top minus_one kept,
      stack.reference_create_top (host.push_value minus_one kept),
    )

module _ {L : Type 0} ⦃host : Host L⦄ (stack : StackLaws host.lua_api)
    (laws : ReferenceLaws host.lua_api) where
  -- With Lua up and the registry in order, `Push_CBaseClient` returns on every branch (NULL, a
  -- registered client, a new one). It leaves one value more on the Lua stack, keeps the registry in
  -- order, registers the client unless it is NULL, and changes no other client's entry.
  pub push_client-IsPushed :
      (w : World L) (c : ℕ)
      → IsRegistry w
      → w.client_type_id ≢ host.type_nil
      → w.lua_set ≡ true
      → (w' : World L) × (push_client c w ≡ (ok tt, w'))
        × IsPushed c w w'
        × (host.top w'.lua ≡ host.top w.lua + 1)
  push_client-IsPushed w c reg typed set = elim (Bool-cases (c == 0)) [
    | inl null ↦ rw ((==_iff c 0).0 null) (
      record w { lua = host.push_nil w.lua },
      push_client_null w set,
      lua-IsPushed w 0 _ reg set (λ ne. absurd (ne refl)),
      stack.push_nil_top w.lua,
    )
    | inr real ↦ elim (Option-cases (lookup c w.pushed)) [
      | inl unknown ↦ (
        record (after_reference c w) { pushed = insert c w.next_user_data w.pushed },
        push_client_unknown w c (==→ne c 0 real) unknown ∙ push_new_lem w c set,
        push_new-IsPushed laws w c reg typed set,
        top_after_reference stack w c,
      )
      | inr (u, known) ↦
          let (d, b) = reg.boxed c u known in
          (
            record w { lua = host.reference_push d.reference w.lua },
            push_client_known w c u d set (==→ne c 0 real) known b.allocated,
            lua-IsPushed w c _ reg set (λ _. (u, known)),
            stack.reference_push_top d.reference w.lua,
          )
    ]
  ]

  -- Each client has one Lua object: with Lua up and the registry in order, if a push of a client
  -- that is not NULL returned, then the next push of it returns too, pushes the reference that the
  -- client's box holds, and changes nothing but the interpreter.
  pub push_client_twice :
      (w w' : World L) (c : ℕ)
      → IsRegistry w
      → w.client_type_id ≢ host.type_nil
      → w.lua_set ≡ true
      → c ≢ 0
      → push_client c w ≡ (ok tt, w')
      → (u : ℕ) × (d : UserData) × (lookup c w'.pushed ≡ some u)
        × (w'.user_data u ≡ some d)
        × (d.object ≡ c)
        × (push_client c w' ≡ (ok tt, record w' { lua = host.reference_push d.reference w'.lua }))
  push_client_twice w w' c reg typed set real ran =
      let (v, same, pushes, _) = push_client-IsPushed w c reg typed set in
      let done : IsPushed c w w' = subst (IsPushed c w) (ap (λ t. t.1) (sym same ∙ ran)) pushes in
      let (u, known) = done.registered real in
      let (d, b) = done.registry.boxed c u known in
      (
        u,
        d,
        known,
        b.allocated,
        b.boxes,
        push_client_known w' c u d done.live real known b.allocated,
      )
