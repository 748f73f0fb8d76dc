-- ===== src/Tables/Heights.antt =====
-- The height of the Lua stack under the table helpers.
use gmod_queue.Base.{
  ◌+◌, ◌≡◌, ◌∙◌, Bool, true, false, inl, inr, Bool-cases, String, arith, minus_one, eqb_ℤ, eqb_ℤ→eq,
  if◌then◌else◌,
}
use gmod_queue.World.State.{World}
use gmod_queue.World.Host.{Host}
use gmod_queue.World.Laws.{StackLaws}
use gmod_queue.World.Monad.{ok, >>=-ok, if_then, if_else}
use gmod_queue.World.Interp.{g_lua_do, g_lua_get, g_lua_do-ok, g_lua_get-ok}
use gmod_queue.Hooks.{globals_index}
use gmod_queue.Tables.{push_table}

module _ {L : Type 0} ⦃host : Host L⦄ (stack : StackLaws host.lua_api) (w : World L)
    (set : w.lua_set ≡ true) where
  open host use {top, push_string, push_c_function, raw_set, get_field, get_type, type_table, pop}

  -- `PushTable` always returns while Lua is up: a table is left on the stack if it returns true,
  -- and the stack is as high as it was if it returns false.
  pub push_table-IsBalanced :
      (name : String)
      → (found : Bool) × (l : L) × (push_table name w ≡ (ok found, record w { lua = l }))
        × (top l ≡ (if found then top w.lua + 1 else top w.lua))
        × (found ≡ true → get_type minus_one l ≡ type_table)
  unfolding push_table
  push_table-IsBalanced name =
      let l : L = get_field globals_index name w.lua in
      let looked : World L = record w { lua = l } in
      let grown = stack.get_field_top globals_index name w.lua in
      let start =
        >>=-ok (g_lua_do (get_field globals_index name)) _ (g_lua_do-ok w set _)
        ∙ >>=-ok (g_lua_get (get_type minus_one)) _ (g_lua_get-ok looked set _) in
      elim (Bool-cases (eqb_ℤ (get_type minus_one l) type_table)) [
        | inl is_table ↦
            (true, l, start ∙ if_then _ _ looked is_table, grown, λ e. eqb_ℤ→eq _ _ is_table)
        | inr other ↦ (
          false,
          pop 1 l,
          start ∙ if_else _ _ looked other ∙ >>=-ok (g_lua_do (pop 1)) _ (g_lua_do-ok looked set _),
          omega (arith, grown, stack.pop_top 1 l),
          λ e. cc,
        )
      ]
