-- ===== src/Hooks/Veto.antt =====
-- The detour of `CBaseClient::SetSignonState` (source/queue.cpp): what the hook is called with, and its
-- veto.
use gmod_queue.Base.{ℕ, ℤ, minus_one, ◌≡◌, ◌⊎◌, Bool, true, false, String}
use gmod_queue.World.State.{World}
use gmod_queue.World.Host.{Host}
use gmod_queue.World.Monad.{Result, ok}
use gmod_queue.Hooks.{hook_set_signon_state}

abbrev pub signon_hook : String
signon_hook = "PlayerQueue:OnSetSignonState"

module _ {L : Type 0} ⦃host : Host L⦄ (cl : ℕ) (state spawncount : ℤ) where
  open host use {push_number, get_bool, pop, top, call_function_protected, set_signon_state}

  -- The two numbers above the client.
  abbrev pub with_numbers : World L → World L
  with_numbers y = record y { lua = push_number spawncount (push_number state y.lua) }

  -- The engine's function, called in a state.
  abbrev pub engine_answer : World L → Result Bool × World L
  engine_answer v =
      (ok (set_signon_state cl state spawncount v).0, (set_signon_state cl state spawncount v).1)

  -- What the detour makes of a call of the hook in the state `v`.
  abbrev pub Answered : World L → World L → Type 0
  Answered w v =
      let (ran, u) = call_function_protected 4 1 true v in
      let popped : World L = record u { lua = pop 1 u.lua } in
      ((ran ≡ true)
        × (get_bool minus_one u.lua ≡ true)
        × (hook_set_signon_state cl state spawncount w ≡ (ok false, popped))
        × (top popped.lua ≡ top w.lua))
      ⊎ ((ran ≡ true)
          × (get_bool minus_one u.lua ≡ false)
          × (hook_set_signon_state cl state spawncount w ≡ engine_answer popped)
          × (top popped.lua ≡ top w.lua))
      ⊎ ((ran ≡ false)
          × (hook_set_signon_state cl state spawncount w ≡ engine_answer u)
          × (top u.lua ≡ top w.lua))
