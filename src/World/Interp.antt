-- ===== src/World/Interp.antt =====
-- Calls of the interpreter. `LUA` is the interpreter that called the function; `g_Lua` is the
-- plugin's global, a fault while it is NULL. Both are taken to be one interpreter.
use gmod_queue.Base.{◌≡◌, ⊤, true, if◌then◌else◌}
use gmod_queue.World.State.{World}
use gmod_queue.World.Monad.{Action, ok, fault, raise, gets, modify}

module _ {L : Type 0} where
  -- A call through `LUA`.
  abbrev pub lua_do : (L → L) → Action L ⊤
  lua_do f = modify λ w. record w { lua = f w.lua }

  abbrev pub lua_get : {A : Type 0} → (L → A) → Action L A
  lua_get f = gets λ w. f w.lua

  abbrev pub lua_call : {A : Type 0} → (L → A × L) → Action L A
  lua_call f w = let (a, l) = f w.lua in (ok a, record w { lua = l })

  abbrev pub through_g_lua : {A : Type 0} → Action L A → Action L A
  through_g_lua m w = (if w.lua_set then m else raise fault) w

  abbrev pub g_lua_do : (L → L) → Action L ⊤
  g_lua_do f = through_g_lua (lua_do f)

  abbrev pub g_lua_get : {A : Type 0} → (L → A) → Action L A
  g_lua_get f = through_g_lua (lua_get f)

  abbrev pub g_lua_call : {A : Type 0} → (L → A × L) → Action L A
  g_lua_call f = through_g_lua (lua_call f)

-- With `g_Lua` set, a call through it is one on the interpreter.
module _ {L : Type 0} (w : World L) (set : w.lua_set ≡ true) where
  pub g_lua_do-ok : (f : L → L) → g_lua_do f w ≡ (ok tt, record w { lua = f w.lua })
  g_lua_do-ok f = rw set

  pub g_lua_get-ok : {A : Type 0} (f : L → A) → g_lua_get f w ≡ (ok (f w.lua), w)
  g_lua_get-ok f = rw set

  pub g_lua_call-ok :
      {A : Type 0} (f : L → A × L)
      → g_lua_call f w ≡ (ok (f w.lua).0, record w { lua = (f w.lua).1 })
  g_lua_call-ok f = rw set
