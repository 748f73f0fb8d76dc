-- ===== src/ClientApi/Handle.antt =====
-- The check that every method starts with: whether the first argument is a live client.
use gmod_queue.Base.{
  ℕ, ℤ, ◌≡◌, refl, ap, ◌∙◌, ◌≢◌, ◌⊎◌, inl, inr, ◌==◌, ==_iff, ==-ne, ==→ne, not, ◌&&◌, Bool,
  Bool-cases, true, false, some, String, eqb_ℤ, if◌then◌else◌,
}
use gmod_queue.World.State.{World, UserData}
use gmod_queue.World.Host.{Host}
use gmod_queue.World.Monad.{
  Action, Error, ok, err, lua_error, pure, raise, gets, >>=-ok, >>=-err, if_then, if_else, ◌>>=◌,
}
use gmod_queue.World.Memory.{read_user_data, read_user_data-ok}
use gmod_queue.World.Interp.{g_lua_get, g_lua_get-ok}
use gmod_queue.UserData.{check_box, get_client_data, get_client}

module _ {L : Type 0} ⦃host : Host L⦄ where
  -- The box pointer that a value of the right type carries.
  abbrev pub handle_at : ℤ → World L → ℕ
  handle_at position w = host.get_user_type position w.client_type_id w.lua

  -- The value at the position is a client's, and its box is allocated if it still has one: what the
  -- registry and `SetUserType(-1, NULL)` keep true of every client's Lua object.
  abbrev pub IsHandle : ℤ → World L → Type 0
  IsHandle position w =
      (handle_at position w ≡ 0)
      ⊎ ((handle_at position w ≢ 0)
          × ((d : UserData) × (w.user_data (handle_at position w) ≡ some d)))

  -- Whether the value at the position is of the clients' type.
  abbrev pub right_type : ℤ → World L → Bool
  right_type position w = eqb_ℤ (host.get_type position w.lua) w.client_type_id

  -- The value at the position is of the clients' type, and carries the box `d` at `u` of a client.
  abbrev pub IsLive : ℤ → World L → ℕ → UserData → Type 0
  IsLive position w u d =
      (right_type position w ≡ true)
      × (handle_at position w ≡ u)
      × (u ≢ 0)
      × (w.user_data u ≡ some d)
      × (d.object ≢ 0)

  -- It is of another type, or carries NULL or an empty box.
  abbrev pub IsDead : ℤ → World L → Type 0
  IsDead position w =
      (right_type position w ≡ false)
      ⊎ (handle_at position w ≡ 0)
      ⊎ ((d : UserData) × (w.user_data (handle_at position w) ≡ some d) × (d.object ≡ 0))

  -- The outcome: the live box; or nothing, which is an error in Lua if one was asked for.
  abbrev pub HandleOutcome : ℤ → Bool → World L → Type 0
  HandleOutcome position raises w =
      ((u : ℕ) × (d : UserData) × IsLive position w u d
        × (get_client_data position raises w ≡ (ok u, w))
        × (get_client position raises w ≡ (ok d.object, w)))
      ⊎ (IsDead position w
          × (raises ≡ true)
          × (s : String) × (get_client_data position raises w ≡ (err (lua_error s), w))
          × (get_client position raises w ≡ (err (lua_error s), w)))
      ⊎ (IsDead position w × (raises ≡ false) × (get_client position raises w ≡ (ok 0, w)))

  module _ (position : ℤ) (w : World L) (set : w.lua_set ≡ true) where
    data_raised :
        (raises : Bool) (e : Error)
        → get_client_data position raises w ≡ (err e, w)
        → get_client position raises w ≡ (err e, w)
    unfolding get_client
    data_raised raises e given = >>=-err (get_client_data position raises) _ given

    data_null :
        (raises : Bool)
        → get_client_data position raises w ≡ (ok 0, w)
        → get_client position raises w ≡ (ok 0, w)
    unfolding get_client
    data_null raises given = >>=-ok (get_client_data position raises) _ given

    data_found :
        (raises : Bool) (u : ℕ) (d : UserData)
        → u ≢ 0
        → w.user_data u ≡ some d
        → get_client_data position raises w ≡ (ok u, w)
        → get_client position raises w ≡ (ok d.object, w)
    unfolding get_client
    data_found raises u d real allocated given =
        >>=-ok (get_client_data position raises) _ given
        ∙ (if_else {b = u == 0} _ _ w (==-ne u 0 real)
            ∙ >>=-ok (read_user_data u) (λ x. pure x.object) {w = w}
                (read_user_data-ok w u d allocated))

    abbrev refusal : Bool → Action L ℕ
    refusal raises =
        if raises
        then raise (lua_error "Tried to use something that wasn't a CBaseClient!")
        else pure 0

    abbrev dispatch : Bool → ℤ → ℤ → Action L ℕ
    dispatch raises t kind =
        if not (eqb_ℤ kind t)
        then refusal raises
        else (do u ← g_lua_get (host.get_user_type position t); check_box u raises)

    checked :
        (raises : Bool)
        → get_client_data position raises w
          ≡ dispatch raises w.client_type_id (host.get_type position w.lua) w
    unfolding get_client_data
    checked raises =
        >>=-ok (gets (λ v. v.client_type_id))
          (λ t. g_lua_get (host.get_type position) >>= dispatch raises t) {w = w} refl
        ∙ >>=-ok (g_lua_get (host.get_type position)) (dispatch raises w.client_type_id) {w = w}
            (g_lua_get-ok w set _)

    wrong_type :
        (raises : Bool)
        → right_type position w ≡ false
        → get_client_data position raises w ≡ (
            if raises
            then (err (lua_error "Tried to use something that wasn't a CBaseClient!"), w)
            else (ok 0, w))
    wrong_type raises other =
        checked raises ∙ if_then (refusal raises) _ w (ap not other) ∙ raised raises
      where
        raised :
            (b : Bool)
            → refusal b w ≡ (
                if b
                then (err (lua_error "Tried to use something that wasn't a CBaseClient!"), w)
                else (ok 0, w))
        raised true = refl
        raised false = refl

    typed :
        (raises : Bool)
        → right_type position w ≡ true
        → get_client_data position raises w ≡ check_box (handle_at position w) raises w
    typed raises same =
        checked raises
        ∙ if_else (refusal raises) _ w (ap not same)
        ∙ >>=-ok (g_lua_get (host.get_user_type position w.client_type_id))
            (λ x. check_box x raises) {w = w} (g_lua_get-ok w set _)

    abbrev null_error : Error
    null_error = lua_error "Tried to use a NULL CBaseClient!"

    box_null :
        (raises : Bool) → check_box 0 raises w ≡ (if raises then (err null_error, w) else (ok 0, w))
    unfolding check_box
    box_null true = refl
    box_null false = refl

    box_read :
        (u : ℕ) (d : UserData)
        → u ≢ 0
        → w.user_data u ≡ some d
        → (if u == 0 then pure true else (do x ← read_user_data u; pure (x.object == 0))) w
          ≡ (ok (d.object == 0), w)
    box_read u d real allocated =
        if_else {b = u == 0} _ _ w (==-ne u 0 real)
        ∙ >>=-ok (read_user_data u) (λ x. pure (x.object == 0)) {w = w}
            (read_user_data-ok w u d allocated)

    box_empty :
        (u : ℕ) (d : UserData) (raises : Bool)
        → u ≢ 0
        → w.user_data u ≡ some d
        → d.object ≡ 0
        → check_box u raises w ≡ (if raises then (err null_error, w) else (ok u, w))
    unfolding check_box
    box_empty u d raises real allocated empty =
        >>=-ok (if u == 0 then pure true else (do x ← read_user_data u; pure (x.object == 0))) _
          (box_read u d real allocated ∙ ap (λ o. (ok (o == 0), w)) empty)
        ∙ answered raises
      where
        answered :
            (b : Bool)
            → (if true && b then (λ (v : World L). (err null_error, v)) else pure u) w
              ≡ (if b then (err null_error, w) else (ok u, w))
        answered true = refl
        answered false = refl

    box_live :
        (u : ℕ) (d : UserData) (raises : Bool)
        → u ≢ 0
        → w.user_data u ≡ some d
        → d.object ≢ 0
        → check_box u raises w ≡ (ok u, w)
    unfolding check_box
    box_live u d raises real allocated full =
        >>=-ok (if u == 0 then pure true else (do x ← read_user_data u; pure (x.object == 0))) _
          (box_read u d real allocated ∙ ap (λ b. (ok b, w)) (==-ne d.object 0 full))

    absent :
        (raises : Bool) (e : String)
        → IsDead position w
        → get_client_data position raises w ≡ (if raises then (err (lua_error e), w) else (ok 0, w))
        → HandleOutcome position raises w
    absent true e dead given =
        inr (inl (dead, refl, e, given, data_raised true (lua_error e) given))
    absent false e dead given = inr (inr (dead, refl, data_null false given))

    emptied :
        (raises : Bool) (u : ℕ) (d : UserData)
        → u ≢ 0
        → w.user_data u ≡ some d
        → d.object ≡ 0
        → IsDead position w
        → get_client_data position raises w ≡ (if raises then (err null_error, w) else (ok u, w))
        → HandleOutcome position raises w
    emptied true u d real allocated empty dead given =
        inr (inl (dead, refl, _, given, data_raised true null_error given))
    emptied false u d real allocated empty dead given =
        inr
          (inr (dead, refl, data_found false u d real allocated given ∙ ap (λ o. (ok o, w)) empty))

    -- The check of an argument never faults and changes nothing, while Lua is up and a client's Lua
    -- object holds NULL or an allocated box. If the value is of the clients' type and carries a box
    -- that holds a client, it yields that box and that client; if it is of another type, or carries
    -- NULL or an empty box, it raises a Lua error if one is asked for, and yields NULL if not.
    pub get_client-outcome :
        (raises : Bool)
        → (right_type position w ≡ true → IsHandle position w)
        → HandleOutcome position raises w
    get_client-outcome raises handle = elim (Bool-cases (right_type position w)) [
      | inr other ↦
          absent raises "Tried to use something that wasn't a CBaseClient!" (inl other)
            (wrong_type raises other)
      | inl same ↦ elim (handle same) [
        | inl null ↦
            absent raises "Tried to use a NULL CBaseClient!" (inr (inl null))
              (typed raises same ∙ ap (λ u. check_box u raises w) null ∙ box_null raises)
        | inr (real, (d, allocated)) ↦ elim (Bool-cases (d.object == 0)) [
          | inl empty ↦
              emptied raises (handle_at position w) d real allocated ((==_iff d.object 0).0 empty)
                (inr (inr (d, allocated, (==_iff d.object 0).0 empty)))
                (typed raises same
                  ∙ box_empty _ d raises real allocated ((==_iff d.object 0).0 empty))
          | inr full ↦
              let given =
                typed raises same ∙ box_live _ d raises real allocated (==→ne d.object 0 full) in
              inl (
                handle_at position w,
                d,
                (same, refl, real, allocated, ==→ne d.object 0 full),
                given,
                data_found raises _ d real allocated given,
              )
        ]
      ]
    ]
