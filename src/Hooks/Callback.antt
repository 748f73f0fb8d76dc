-- ===== src/Hooks/Callback.antt =====
-- What the plugin relies on when it calls a Lua hook, and the state that it calls one in.
use gmod_queue.Base.{ℕ, ◌+◌, ◌≤◌, ◌≡◌, ◌≢◌, Bool, true, false, List}
use gmod_queue.World.State.{World, Note}
use gmod_queue.World.Host.{Host}
use gmod_queue.Move.EngineLaws.{IsSamePlace}
use gmod_queue.UserData.Registry.{IsRegistry}

-- The plugin is ready to talk to Lua: the registry is in order, and clients have a type in Lua.
pub record IsReady {L : Type 0} ⦃host : Host L⦄ (w : World L) : Type 0 where
  pub registry : IsRegistry w
  pub typed : w.client_type_id ≢ host.type_nil

-- `CallFunctionProtected(n, r)` takes the function and its `n` arguments off the stack, and leaves
-- `r` results, or none where the call failed. The Lua code that it runs reaches the plugin's
-- globals only through the plugin's functions, which keep them in order. The
-- engine sets a client object's slot, entity and server when it makes the object, and Lua code, which
-- may disconnect clients and set their sign-on states, cannot change these.
pub record CallbackLaws {L : Type 0} (host : Host L) : Type 0 where
  pub call_succeeded :
      (n r : ℕ) (shown : Bool) (w : World L)
      → n + 1 ≤ host.top w.lua
      → (host.call_function_protected n r shown w).0 ≡ true
      → host.top (host.call_function_protected n r shown w).1.lua + (n + 1) ≡ host.top w.lua + r
  pub call_failed :
      (n r : ℕ) (shown : Bool) (w : World L)
      → n + 1 ≤ host.top w.lua
      → (host.call_function_protected n r shown w).0 ≡ false
      → host.top (host.call_function_protected n r shown w).1.lua + (n + 1) ≡ host.top w.lua
  pub call_keeps_ready :
      (n r : ℕ) (shown : Bool) (w : World L)
      → IsReady ⦃host = host⦄ w
      → IsReady ⦃host = host⦄ (host.call_function_protected n r shown w).1
  pub call_keeps_lua :
      (n r : ℕ) (shown : Bool) (w : World L)
      → w.lua_set ≡ true
      → (host.call_function_protected n r shown w).1.lua_set ≡ true
  pub call_keeps_thread :
      (n r : ℕ) (shown : Bool) (w : World L)
      → (host.call_function_protected n r shown w).1.main_thread ≡ w.main_thread
  pub call_keeps_place :
      (n r : ℕ) (shown : Bool) (w : World L) (q : ℕ)
      → IsSamePlace (w.client q) ((host.call_function_protected n r shown w).1.client q)

module _ {L : Type 0} ⦃host : Host L⦄ where
  pub lua-IsReady :
      (w : World L) (l : L) (ns : List Note)
      → IsReady w
      → IsReady (record w { lua = l; notes = ns })
  lua-IsReady w l ns ready =
      let reg = ready.registry in
      record {
        registry = record { keys = reg.keys; started = reg.started; boxed = reg.boxed };
        typed = ready.typed;
      }
