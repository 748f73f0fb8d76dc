-- ===== src/Hooks/Balance.antt =====
-- `Lua::PushHook` leaves two values on the stack if it returns true and none if it returns false.
use gmod_queue.Base.{
  ℕ, ◌+◌, minus_one, ◌≡◌, refl, ap, ◌∙◌, inl, inr, Bool, Bool-cases, true, false, not, arith, eqb_ℤ,
  String, List, ◌∷◌,
}
use gmod_queue.World.State.{World, Note}
use gmod_queue.World.Host.{Host}
use gmod_queue.World.Laws.{StackLaws}
use gmod_queue.World.Monad.{Action, ok, note, >>=-ok, if_then, if_else}
use gmod_queue.World.Interp.{g_lua_do, g_lua_get, g_lua_do-ok, g_lua_get-ok}
use gmod_queue.Hooks.{push_hook, push_hook_table, push_run, globals_index, minus_two}

-- How high the stack is after `PushHook` returned `b`.
abbrev pub height : ℕ → Bool → ℕ
height n true = n + 2
height n false = n

-- `PushHook` returns `b`, and changes the interpreter and the log alone.
pub record IsHookPushed {L : Type 0} ⦃host : Host L⦄ (m : Action L Bool) (w : World L)
    : Type 0 where
  pub answer : Bool
  pub lua : L
  pub notes : List Note
  pub ran : m w ≡ (ok answer, record w { lua = lua; notes = notes })
  pub balanced : host.top lua ≡ height (host.top w.lua) answer

module _ {L : Type 0} ⦃host : Host L⦄ (stack : StackLaws host.lua_api) where
  open host use {get_field, get_type, type_table, type_function, pop, remove, push_string, top}

  -- After `hook` was found to be a table, on the stack at `w`.
  module _ (w : World L) (set : w.lua_set ≡ true) (hook : String) where
    abbrev with_run : World L
    with_run = record w { lua = get_field minus_one "Run" w.lua }

    pub push_run_found :
        eqb_ℤ (get_type minus_one with_run.lua) type_function ≡ true
        → push_run hook w
          ≡ (ok true, record w { lua = push_string hook (remove minus_two with_run.lua) })
    unfolding push_run
    push_run_found is_function =
        >>=-ok (g_lua_do (get_field minus_one "Run")) _ (g_lua_do-ok w set _)
        ∙ >>=-ok (g_lua_get (get_type minus_one)) _ (g_lua_get-ok with_run set _)
        ∙ if_else _ _ with_run (ap not is_function)
        ∙ >>=-ok (g_lua_do (remove minus_two)) _ (g_lua_do-ok with_run set _)
        ∙ >>=-ok (g_lua_do (push_string hook)) _ (g_lua_do-ok _ set _)

    pub push_run_missing :
        eqb_ℤ (get_type minus_one with_run.lua) type_function ≡ false
        → push_run hook w ≡ (
          ok false,
          record w { lua = pop 2 with_run.lua; notes = Note.missing_hook_run ∷ w.notes },
        )
    unfolding push_run
    push_run_missing is_other =
        >>=-ok (g_lua_do (get_field minus_one "Run")) _ (g_lua_do-ok w set _)
        ∙ >>=-ok (g_lua_get (get_type minus_one)) _ (g_lua_get-ok with_run set _)
        ∙ if_then _ _ with_run (ap not is_other)
        ∙ >>=-ok (g_lua_do (pop 2)) _ (g_lua_do-ok with_run set _)
        ∙ >>=-ok (note Note.missing_hook_run) _ refl

    push_run-outcome :
        (n : ℕ)
        → top w.lua ≡ n + 1
        → (b : Bool) × (l : L) × (ns : List Note) × (push_run hook w
            ≡ (ok b, record w { lua = l; notes = ns }))
          × (top l ≡ height n b)
    push_run-outcome n at =
        elim (Bool-cases (eqb_ℤ (get_type minus_one with_run.lua) type_function)) [
          | inl found ↦ (
            true,
            push_string hook (remove minus_two with_run.lua),
            w.notes,
            push_run_found found,
            omega (
              arith,
              stack.get_field_top minus_one "Run" w.lua,
              stack.remove_top minus_two with_run.lua,
              stack.push_string_top hook (remove minus_two with_run.lua),
            ),
          )
          | inr other ↦ (
            false,
            pop 2 with_run.lua,
            Note.missing_hook_run ∷ w.notes,
            push_run_missing other,
            omega (arith, stack.get_field_top minus_one "Run" w.lua, stack.pop_top 2 with_run.lua),
          )
        ]

  module _ (w : World L) (set : w.lua_set ≡ true) (hook : String) where
    abbrev with_hook : World L
    with_hook = record w { lua = get_field globals_index "hook" w.lua }

    pub push_hook_table_missing :
        eqb_ℤ (get_type minus_one with_hook.lua) type_table ≡ false
        → push_hook_table hook w ≡ (
          ok false,
          record w { lua = pop 1 with_hook.lua; notes = Note.missing_hook_table ∷ w.notes },
        )
    unfolding push_hook_table
    push_hook_table_missing is_other =
        >>=-ok (g_lua_do (get_field globals_index "hook")) _ (g_lua_do-ok w set _)
        ∙ >>=-ok (g_lua_get (get_type minus_one)) _ (g_lua_get-ok with_hook set _)
        ∙ if_then _ _ with_hook (ap not is_other)
        ∙ >>=-ok (g_lua_do (pop 1)) _ (g_lua_do-ok with_hook set _)
        ∙ >>=-ok (note Note.missing_hook_table) _ refl

    pub push_hook_table_found :
        eqb_ℤ (get_type minus_one with_hook.lua) type_table ≡ true
        → push_hook_table hook w ≡ push_run hook with_hook
    unfolding push_hook_table
    push_hook_table_found is_table =
        >>=-ok (g_lua_do (get_field globals_index "hook")) _ (g_lua_do-ok w set _)
        ∙ >>=-ok (g_lua_get (get_type minus_one)) _ (g_lua_get-ok with_hook set _)
        ∙ if_else _ _ with_hook (ap not is_table)

    push_hook_table-IsHookPushed : IsHookPushed (push_hook_table hook) w
    push_hook_table-IsHookPushed =
        let grown = stack.get_field_top globals_index "hook" w.lua in
        elim (Bool-cases (eqb_ℤ (get_type minus_one with_hook.lua) type_table)) [
          | inl found ↦
              let (b, l, ns, ran, high) = push_run-outcome with_hook set hook (top w.lua) grown in
              record {
                answer = b;
                lua = l;
                notes = ns;
                ran = push_hook_table_found found ∙ ran;
                balanced = high;
              }
          | inr other ↦ record {
            answer = false;
            lua = pop 1 with_hook.lua;
            notes = Note.missing_hook_table ∷ w.notes;
            ran = push_hook_table_missing other;
            balanced = omega (arith, grown, stack.pop_top 1 with_hook.lua);
          }
        ]

  -- `PushHook` always returns, without Lua and off the main thread too. It leaves two values on the
  -- stack if it returns true, and the stack as high as it was if it returns false; it changes nothing
  -- but the interpreter and the log, and returns true only with Lua up on the main thread.
  pub push_hook-IsHookPushed :
      (w : World L) (hook : String)
      → (p : IsHookPushed (push_hook hook) w) × (p.answer ≡ true
          → (w.lua_set ≡ true) × (w.main_thread ≡ true))
  unfolding push_hook
  push_hook-IsHookPushed w hook = elim (Bool-cases w.lua_set) [
    | inr down ↦ (
      record {
        answer = false;
        lua = w.lua;
        notes = Note.hook_without_lua hook ∷ w.notes;
        ran = if_then _ _ w (ap not down) ∙ >>=-ok (note (Note.hook_without_lua hook)) _ refl;
        balanced = refl;
      },
      λ e. cc,
    )
    | inl up ↦ elim (Bool-cases w.main_thread) [
      | inr off ↦ (
        record {
          answer = false;
          lua = w.lua;
          notes = Note.hook_off_main_thread hook ∷ w.notes;
          ran =
              if_else _ _ w (ap not up)
              ∙ if_then _ _ w (ap not off)
              ∙ >>=-ok (note (Note.hook_off_main_thread hook)) _ refl;
          balanced = refl;
        },
        λ e. cc,
      )
      | inl main ↦
          let p = push_hook_table-IsHookPushed w up hook in
          (
            record {
              answer = p.answer;
              lua = p.lua;
              notes = p.notes;
              ran = if_else _ _ w (ap not up) ∙ if_else _ _ w (ap not main) ∙ p.ran;
              balanced = p.balanced;
            },
            λ _. (up, main),
          )
    ]
  ]
