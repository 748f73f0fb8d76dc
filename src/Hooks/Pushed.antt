-- ===== src/Hooks/Pushed.antt =====
-- What `Lua::PushHook` (source/lua.cpp) pushes, and when.
use gmod_queue.Base.{
  ◌+◌, minus_one, ◌≡◌, refl, ap, ◌∙◌, ◌⊎◌, inl, inr, Bool-cases, true, false, not, arith, eqb_ℤ,
  String, List, ◌∷◌,
}
use gmod_queue.World.State.{World, Note}
use gmod_queue.World.Host.{Host}
use gmod_queue.World.Laws.{StackLaws}
use gmod_queue.World.Monad.{ok, note, >>=-ok, if_then, if_else}
use gmod_queue.Hooks.{push_hook, push_hook_table, globals_index, minus_two}
use gmod_queue.Hooks.Balance.{
  push_run_found, push_run_missing, push_hook_table_missing, push_hook_table_found,
}

module _ {L : Type 0} ⦃host : Host L⦄ where
  open host use {get_field, get_type, type_table, type_function, pop, remove, push_string, top}

  -- The stack with the global `hook` on top, and with its field `Run`.
  abbrev pub hook_found : L → L
  hook_found l = get_field globals_index "hook" l

  abbrev pub run_found : L → L
  run_found l = get_field minus_one "Run" (hook_found l)

  -- Lua is up, the main thread runs, `hook` is a table and `hook.Run` is a function.
  abbrev pub IsPushable : World L → Type 0
  IsPushable w =
      (w.lua_set ≡ true)
      × (w.main_thread ≡ true)
      × (eqb_ℤ (get_type minus_one (hook_found w.lua)) type_table ≡ true)
      × (eqb_ℤ (get_type minus_one (run_found w.lua)) type_function ≡ true)

  -- `hook.Run` alone in place of `hook`, and the hook's name on top of it.
  abbrev pub hooked : String → World L → World L
  hooked hook w = record w { lua = push_string hook (remove minus_two (run_found w.lua)) }

  -- What `PushHook` does.
  abbrev pub PushOutcome : String → World L → Type 0
  PushOutcome hook w =
      (IsPushable w
        × (push_hook hook w ≡ (ok true, hooked hook w))
        × (top (hooked hook w).lua ≡ top w.lua + 2))
      ⊎ ((¬ IsPushable w)
          × (l : L) × (ns : List Note) × (push_hook hook w
              ≡ (ok false, record w { lua = l; notes = ns }))
          × (top l ≡ top w.lua))

  module _ (stack : StackLaws host.lua_api) (w : World L) (hook : String) where
    reached : w.lua_set ≡ true → w.main_thread ≡ true → push_hook hook w ≡ push_hook_table hook w
    unfolding push_hook
    reached up main = if_else _ _ w (ap not up) ∙ if_else _ _ w (ap not main)

    tried_run :
        w.lua_set ≡ true
        → w.main_thread ≡ true
        → eqb_ℤ (get_type minus_one (hook_found w.lua)) type_table ≡ true
        → PushOutcome hook w
    tried_run up main is_table =
        let v : World L = record w { lua = hook_found w.lua } in
        let start = reached up main ∙ push_hook_table_found stack w up hook is_table in
        let grown = stack.get_field_top globals_index "hook" w.lua in
        let more = stack.get_field_top minus_one "Run" (hook_found w.lua) in
        elim (Bool-cases (eqb_ℤ (get_type minus_one (run_found w.lua)) type_function)) [
          | inl is_function ↦ inl (
            (up, main, is_table, is_function),
            start ∙ push_run_found stack v up hook is_function,
            omega (
              arith,
              grown,
              more,
              stack.remove_top minus_two (run_found w.lua),
              stack.push_string_top hook (remove minus_two (run_found w.lua)),
            ),
          )
          | inr other ↦ inr (
            λ (_, _, _, is_function). cc,
            pop 2 (run_found w.lua),
            Note.missing_hook_run ∷ w.notes,
            start ∙ push_run_missing stack v up hook other,
            omega (arith, grown, more, stack.pop_top 2 (run_found w.lua)),
          )
        ]

    -- `PushHook` always returns, and changes nothing but the interpreter and the log. If Lua is up,
    -- the main thread runs, the global `hook` is a table and its `Run` a function, it returns true,
    -- with `hook.Run` and the hook's name pushed on the stack. If not, it returns false, with the
    -- stack as high as before.
    pub push_hook-outcome : PushOutcome hook w
    unfolding push_hook
    push_hook-outcome = elim (Bool-cases w.lua_set) [
      | inr down ↦ inr (
        λ (up, _, _, _). cc,
        w.lua,
        Note.hook_without_lua hook ∷ w.notes,
        if_then _ _ w (ap not down) ∙ >>=-ok (note (Note.hook_without_lua hook)) _ refl,
        refl,
      )
      | inl up ↦ elim (Bool-cases w.main_thread) [
        | inr off ↦ inr (
          λ (_, main, _, _). cc,
          w.lua,
          Note.hook_off_main_thread hook ∷ w.notes,
          if_else _ _ w (ap not up)
              ∙ if_then _ _ w (ap not off)
              ∙ >>=-ok (note (Note.hook_off_main_thread hook)) _ refl,
          refl,
        )
        | inl main ↦ elim (Bool-cases (eqb_ℤ (get_type minus_one (hook_found w.lua)) type_table)) [
          | inl is_table ↦ tried_run up main is_table
          | inr other ↦ inr (
            λ (_, _, is_table, _). cc,
            pop 1 (hook_found w.lua),
            Note.missing_hook_table ∷ w.notes,
            reached up main ∙ push_hook_table_missing stack w up hook other,
            omega (
              arith,
              stack.get_field_top globals_index "hook" w.lua,
              stack.pop_top 1 (hook_found w.lua),
            ),
          )
        ]
      ]
    ]
