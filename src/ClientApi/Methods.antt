-- ===== src/ClientApi/Methods.antt =====
-- What the methods of a client return, on a live client and on anything else.
use gmod_queue.Base.{
  ℕ, ℤ, pos, ◌≡◌, refl, ap, ◌∙◌, ◌≢◌, ◌⊎◌, inl, inr, ◌==◌, ==-ne, Bool, Bool-cases, true, false,
  some, String, update, cast_int, leb_ℤ, eqb_ℤ,
}
use gmod_queue.Engine.Client.{Client}
use gmod_queue.World.State.{World, UserData}
use gmod_queue.World.Host.{Host}
use gmod_queue.World.Monad.{ok, err, lua_error, pure, or_raise, >>=-ok, if_then, if_else}
use gmod_queue.World.Memory.{change_client}
use gmod_queue.World.Interp.{lua_do, lua_get}
use gmod_queue.UserData.{get_client}
use gmod_queue.Hooks.{hook_set_signon_state}
use gmod_queue.ClientApi.{
  client_get_player_slot, client_get_user_id, client_get_signon_state, client_is_connected,
  client_is_spawned, client_is_active, client_is_fake_client, client_set_signon_state, set_state_of,
  bad_argument,
}

module _ {L : Type 0} ⦃host : Host L⦄ (w : World L) where
  -- A value pushed on the interpreter's stack, and nothing else changed.
  abbrev pub pushes : (L → L) → World L
  pushes f = record w { lua = f w.lua }

  -- The client of the first argument, if it has one.
  abbrev pub LiveClient : Bool → ℕ → Type 0
  LiveClient raises p = (p ≢ 0) × (get_client (pos 1) raises w ≡ (ok p, w))

  -- What the seven methods that read a property push for a client, and what they raise.
  abbrev pub AllRead : Client → Type 0
  AllRead c =
      (client_get_player_slot w ≡ (ok 1, pushes (host.push_number c.client_slot)))
      × (client_get_user_id w ≡ (ok 1, pushes (host.push_number c.user_id)))
      × (client_get_signon_state w ≡ (ok 1, pushes (host.push_number c.signon_state)))
      × (client_is_connected w ≡ (ok 1, pushes (host.push_bool (leb_ℤ (pos 2) c.signon_state))))
      × (client_is_spawned w ≡ (ok 1, pushes (host.push_bool (leb_ℤ (pos 3) c.signon_state))))
      × (client_is_active w ≡ (ok 1, pushes (host.push_bool (eqb_ℤ c.signon_state (pos 6)))))
      × (client_is_fake_client w ≡ (ok 1, pushes (host.push_bool c.fake_player)))

  abbrev pub AllRaise : String → Type 0
  AllRaise s =
      (client_get_player_slot w ≡ (err (lua_error s), w))
      × (client_get_user_id w ≡ (err (lua_error s), w))
      × (client_get_signon_state w ≡ (err (lua_error s), w))
      × (client_is_connected w ≡ (err (lua_error s), w))
      × (client_is_spawned w ≡ (err (lua_error s), w))
      × (client_is_active w ≡ (err (lua_error s), w))
      × (client_is_fake_client w ≡ (err (lua_error s), w))

  -- The arguments of `SetSignonState`.
  module _ (p : ℕ) (live : LiveClient true p) (number : ℤ)
      (given : host.check_number (pos 2) w.lua ≡ some number) where
    abbrev state : ℤ
    state = cast_int number

    abbrev spawncount : ℤ
    spawncount = cast_int (host.get_number (pos 3) w.lua)

    abbrev raw : Bool
    raw = host.get_bool (pos 4) w.lua

    read_arguments : client_set_signon_state w ≡ set_state_of p state spawncount raw w
    unfolding client_set_signon_state
    read_arguments =
        >>=-ok (get_client (pos 1) true) _ live.1
        ∙ (>>=-ok (lua_get (host.check_number (pos 2))) _ refl
            ∙ (>>=-ok (or_raise (host.check_number (pos 2) w.lua) (lua_error bad_argument)) _
                  {w = w} (ap (λ o. or_raise o (lua_error bad_argument) w) given)
                ∙ (>>=-ok (lua_get (host.get_number (pos 3))) _ refl
                    ∙ >>=-ok (lua_get (host.get_bool (pos 4)))
                        (λ b. set_state_of p state spawncount b) {w = w} refl)))

    -- With its arguments in order, `SetSignonState` on a live client returns one value. With a raw
    -- set it stores the state and pushes true, and asks neither Lua nor the engine; without one it
    -- pushes what the detoured function returns.
    pub client_set_signon_state-outcome :
        ((raw ≡ true)
          × (client_set_signon_state w ≡ (
            ok 1,
            record w {
              client = update w.client p (record (w.client p) { signon_state = state });
              lua = host.push_bool true w.lua;
            },
          )))
        ⊎ ((raw ≡ false)
            × ((done : Bool) (v : World L)
                → hook_set_signon_state p state spawncount w ≡ (ok done, v)
                → client_set_signon_state w ≡ (ok 1, record v { lua = host.push_bool done v.lua })))
    unfolding set_state_of
    client_set_signon_state-outcome = elim (Bool-cases raw) [
      | inl is_raw ↦ inl (
        is_raw,
        read_arguments
            ∙ (if_else {b = p == 0} _ _ w (==-ne p 0 live.0)
                ∙ (if_then {b = raw} _ _ w is_raw
                    ∙ (>>=-ok (change_client p (λ c. record c { signon_state = state })) _
                          (if_else {b = p == 0} _ _ w (==-ne p 0 live.0))
                        ∙ >>=-ok (lua_do (host.push_bool true)) (λ _. pure 1) refl))),
      )
      | inr checked ↦ inr (
        checked,
        λ done v answered.
            read_arguments
            ∙ (if_else {b = p == 0} _ _ w (==-ne p 0 live.0)
                ∙ (if_else {b = raw} _ _ w checked
                    ∙ (>>=-ok (hook_set_signon_state p state spawncount) _ answered
                        ∙ >>=-ok (lua_do (host.push_bool done)) (λ _. pure 1) {w = v} refl))),
      )
    ]
