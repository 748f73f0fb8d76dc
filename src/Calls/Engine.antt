-- ===== src/Calls/Engine.antt =====
-- What the methods of a client that call the engine (source/queue.cpp) ensure.
use gmod_queue.Base.{
  cast_int, ℕ, ℤ, pos, ◌∙◌, ◌≢◌, ◌==◌, Bool, true, false, String, minus_one, Option, ==-ne,
}
use gmod_queue.Engine.Client.{Client}
use gmod_queue.World.State.{World}
use gmod_queue.World.Host.{Host}
use gmod_queue.World.Laws.{StackLaws, ReferenceLaws}
use gmod_queue.World.Monad.{Action, lua_error, or_raise, call, ◌>>=◌}
use gmod_queue.World.Memory.{change_client}
use gmod_queue.World.Interp.{lua_get, g_lua_do, g_lua_get, g_lua_do-ok, g_lua_get-ok}
use gmod_queue.Hooks.{
  push_hook, signon_answer, run_signon_hook, ask_signon_hook, hook_set_signon_state,
}
use gmod_queue.Hooks.Balance.{push_hook-IsHookPushed}
use gmod_queue.Move.Quiet.{objects-IsQuiet}
use gmod_queue.Hooks.Callback.{CallbackLaws}
use gmod_queue.ClientApi.{
  client_reconnect, client_client_print, client_disconnect, set_state_of, client_set_signon_state,
  bad_argument,
}
use gmod_queue.Calls.Methods.{pushing-Keeps, with_client}
use gmod_queue.Calls.Order.{
  InOrder, Ends, Ensures, Keeps, lua-InOrder, note-InOrder, Keeps-pure, Keeps-gets, Keeps-or_raise,
  Keeps-call, Keeps-if, Ensures-bind, Ensures-then, Keeps-modify,
}
use gmod_queue.Calls.Handles.{Ends-ok, Called, push_client-Keeps}

-- The engine's functions that a method or a detour calls leave the plugin in order: where they reach it, they do
-- so by its detours.
pub record OrderLaws {L : Type 0} (host : Host L) : Type 0 where
  pub reconnect_order :
      (p : ℕ) (w : World L) → InOrder ⦃host = host⦄ w → InOrder ⦃host = host⦄ (host.reconnect p w)
  pub disconnect_order :
      (p : ℕ) (s : String) (w : World L)
      → InOrder ⦃host = host⦄ w
      → InOrder ⦃host = host⦄ (host.disconnect p s w)
  pub client_printf_order :
      (p : ℕ) (s : String) (w : World L)
      → InOrder ⦃host = host⦄ w
      → InOrder ⦃host = host⦄ (host.client_printf p s w)
  pub set_signon_state_order :
      (p : ℕ) (state spawncount : ℤ) (w : World L)
      → InOrder ⦃host = host⦄ w
      → InOrder ⦃host = host⦄ (host.set_signon_state p state spawncount w).1
  pub notify_client_disconnect_order :
      (steam p : ℕ) (w : World L)
      → InOrder ⦃host = host⦄ w
      → InOrder ⦃host = host⦄ (host.notify_client_disconnect steam p w)

module _ (L : Type 0) ⦃host : Host L⦄ where
  -- An argument that the interpreter checks.
  checked-Keeps :
      {A B : Type 0} (read : L → Option A) (f : A → Action L B)
      → ((a : A) → Keeps (f a))
      → Keeps (do n ← lua_get read; a ← or_raise n (lua_error bad_argument); f a)
  checked-Keeps read f each =
      Ensures-bind (Keeps-gets λ w. read w.lua)
        λ n. Ensures-bind (Keeps-or_raise n bad_argument) each

  pub push_hook-Keeps : StackLaws host.lua_api → (name : String) → Keeps {L = L} (push_hook name)
  push_hook-Keeps stack name = record {
    at = λ w o.
        let (p, _) = push_hook-IsHookPushed stack w name in
        Ends-ok _ _ p.answer _ p.ran
          (note-InOrder (record w { lua = p.lua }) p.notes (lua-InOrder w p.lua o));
  }

  pub callback-Keeps :
      CallbackLaws host
      → (n r : ℕ) (shown : Bool) → Keeps {L = L} (call (host.call_function_protected n r shown))
  callback-Keeps callback n r shown = Keeps-call _ λ w o. record {
    ready = callback.call_keeps_ready n r shown w o.ready;
    up = callback.call_keeps_lua n r shown w o.up;
    thread = callback.call_keeps_thread n r shown w ∙ o.thread;
  }

  g_lua_do-Keeps : (f : L → L) → Keeps {L = L} (g_lua_do f)
  g_lua_do-Keeps f = record {
    at = λ w o. Ends-ok _ _ tt _ (g_lua_do-ok w o.up f) (lua-InOrder w (f w.lua) o);
  }

  g_lua_get-Keeps : {A : Type 0} (f : L → A) → Keeps {L = L} (g_lua_get f)
  g_lua_get-Keeps f = record { at = λ w o. Ends-ok _ _ (f w.lua) w (g_lua_get-ok w o.up f) o }

  -- The four laws that the calls of Lua and of the engine rest on.
  module _ (stack : StackLaws host.lua_api) (references : ReferenceLaws host.lua_api)
      (callback : CallbackLaws host) (engine : OrderLaws host) where
    pub hook_set_signon_state-Keeps :
        (p : ℕ) (state spawncount : ℤ) → Keeps {L = L} (hook_set_signon_state p state spawncount)
    unfolding hook_set_signon_state ask_signon_hook run_signon_hook signon_answer
    hook_set_signon_state-Keeps p state spawncount =
        Ensures-bind
          (Ensures-bind (push_hook-Keeps stack _) λ pushed.
            Keeps-if pushed _ _
              (Ensures-then (push_client-Keeps L stack references p) (
                Ensures-then (g_lua_do-Keeps _) (
                  Ensures-then (g_lua_do-Keeps _) (
                    Ensures-bind (callback-Keeps callback 4 1 true) λ ran.
                      Keeps-if ran _ _
                        (Ensures-bind (g_lua_get-Keeps (host.get_bool minus_one))
                          λ ret. Ensures-then (g_lua_do-Keeps _) (Keeps-pure ret))
                        (Keeps-pure false)))))
              (Keeps-pure false))
          λ refused.
            Keeps-if refused _ _ (Keeps-pure false)
              (Keeps-call _ (engine.set_signon_state_order p state spawncount))

    stored-Keeps : (p : ℕ) (f : Client → Client) → p ≢ 0 → Keeps {L = L} (change_client p f)
    unfolding Ends
    stored-Keeps p f real = record {
      at = λ w o. rw (==-ne p 0 real) (record {
        ready = (objects-IsQuiet w _ w.notes).ready o.ready;
        up = o.up;
        thread = o.thread;
      });
    }

    set_state_of-Keeps :
        (p : ℕ) (state spawncount : ℤ) (raw : Bool)
        → p ≢ 0
        → Keeps {L = L} (set_state_of p state spawncount raw)
    unfolding set_state_of
    set_state_of-Keeps p state spawncount raw real =
        Keeps-if (p == 0) _ _ (pushing-Keeps L (host.push_bool false)) (
          Keeps-if raw _ _
            (Ensures-then (stored-Keeps p (λ c. record c { signon_state = state }) real)
              (pushing-Keeps L (host.push_bool true)))
            (Ensures-bind (hook_set_signon_state-Keeps p state spawncount)
              (λ done. pushing-Keeps L (host.push_bool done))))

    pub client_set_signon_state-Ensures :
        Ensures {L = L} Called client_set_signon_state (λ _. InOrder)
    unfolding client_set_signon_state
    client_set_signon_state-Ensures = with_client L _ λ p real.
        checked-Keeps (host.check_number (pos 2)) _ λ state.
          Ensures-bind (Keeps-gets λ w. host.get_number (pos 3) w.lua) λ spawncount.
            Ensures-bind (Keeps-gets λ w. host.get_bool (pos 4) w.lua)
              λ raw. set_state_of-Keeps p (cast_int state) (cast_int spawncount) raw real

    pub client_reconnect-Ensures : Ensures {L = L} Called client_reconnect (λ _. InOrder)
    unfolding client_reconnect
    client_reconnect-Ensures =
        with_client L _
          λ p real. Ensures-then (Keeps-modify _ (engine.reconnect_order p)) (Keeps-pure 0)

    pub client_client_print-Ensures : Ensures {L = L} Called client_client_print (λ _. InOrder)
    unfolding client_client_print
    client_client_print-Ensures = with_client L _ λ p real.
        checked-Keeps (host.check_string (pos 2)) _
          λ text. Ensures-then (Keeps-modify _ (engine.client_printf_order p text)) (Keeps-pure 0)

    pub client_disconnect-Ensures : Ensures {L = L} Called client_disconnect (λ _. InOrder)
    unfolding client_disconnect
    client_disconnect-Ensures = with_client L _ λ p real.
        checked-Keeps (host.check_string (pos 2)) _
          λ reason. Ensures-then (Keeps-modify _ (engine.disconnect_order p reason)) (Keeps-pure 0)
