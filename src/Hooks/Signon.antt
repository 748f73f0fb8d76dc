-- ===== src/Hooks/Signon.antt =====
-- The call of the sign-on hook (source/queue.cpp), with its arguments on the stack.
use gmod_queue.Base.{minus_one, ◌≡◌, refl, ◌∙◌, Bool, true, false}
use gmod_queue.World.State.{World}
use gmod_queue.World.Host.{Host}
use gmod_queue.World.Laws.{StackLaws, ReferenceLaws}
use gmod_queue.World.Monad.{ok, call, >>=-ok, if_then, if_else}
use gmod_queue.World.Interp.{g_lua_do, g_lua_get, g_lua_do-ok, g_lua_get-ok}
use gmod_queue.Hooks.{signon_answer}
use gmod_queue.Hooks.Callback.{IsReady, CallbackLaws}

module _ {L : Type 0} ⦃host : Host L⦄ (stack : StackLaws host.lua_api)
    (laws : ReferenceLaws host.lua_api) (callback : CallbackLaws host) where
  open host use {push_number, get_bool, pop, top, call_function_protected}

  -- What the call returns, and the value that it leaves.
  module _ (v : World L) (ready : IsReady v) (set : v.lua_set ≡ true) where
    abbrev called : Bool × World L
    called = call_function_protected 4 1 true v

    pub signon_answer_failed : called.0 ≡ false → signon_answer v ≡ (ok false, called.1)
    unfolding signon_answer
    signon_answer_failed failed =
        >>=-ok (call (call_function_protected 4 1 true)) _ refl ∙ if_else _ _ called.1 failed

    pub signon_answer_ran :
        called.0 ≡ true
        → signon_answer v
          ≡ (ok (get_bool minus_one called.1.lua), record called.1 { lua = pop 1 called.1.lua })
    unfolding signon_answer
    signon_answer_ran ran =
        let up = callback.call_keeps_lua 4 1 true v set in
        >>=-ok (call (call_function_protected 4 1 true)) _ refl
        ∙ if_then _ _ called.1 ran
        ∙ >>=-ok (g_lua_get (get_bool minus_one)) _ (g_lua_get-ok called.1 up _)
        ∙ >>=-ok (g_lua_do (pop 1)) _ (g_lua_do-ok called.1 up _)
