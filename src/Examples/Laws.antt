-- ===== src/Examples/Laws.antt =====
-- The machine and its engine behave as the documentation says.
use gmod_queue.Base.{
  ℕ, zero, suc, ◌+◌, ◌-◌, pos, minus_one, ◌≡◌, refl, sym, ap, ◌≢◌, List, [], ◌∷◌, arith, length,
  drop, length-drop, update_self, update-ne,
}
use gmod_queue.World.Laws.{StackLaws, ReferenceLaws}
use gmod_queue.Hooks.Callback.{CallbackLaws, lua-IsReady}
use gmod_queue.Move.EngineLaws.{EngineLaws}
use gmod_queue.Move.Quiet.{QuietLaws, objects-IsQuiet}
use gmod_queue.Examples.Machine.{
  Value, nil, boolean, number, string, function, table, user, pad, remove_second, keep, type_of,
  top_value, lua_api, machine,
}

length-remove_second : (vs : List Value) → length (remove_second vs) ≡ length vs - 1
length-remove_second [] = refl
length-remove_second (v ∷ []) = refl
length-remove_second (v ∷ u ∷ vs) = omega arith

length-pad : (n : ℕ) (vs : List Value) → length (pad n vs) ≡ length vs + n
length-pad zero vs = omega arith
length-pad (suc n) vs = omega (arith, length-pad n vs)

pub machine-StackLaws : StackLaws lua_api
machine-StackLaws = record {
  push_nil_top = λ l. omega arith;
  push_number_top = λ n l. omega arith;
  push_string_top = λ s l. omega arith;
  push_bool_top = λ b l. omega arith;
  push_c_function_top = λ s l. omega arith;
  push_value_top = λ i l. omega arith;
  create_table_top = λ l. omega arith;
  pop_top = λ n l. length-drop n l.stack;
  remove_top = λ i l. length-remove_second l.stack;
  raw_set_top = λ i l. length-drop 2 l.stack;
  get_field_top = λ i s l. omega arith;
  set_field_top = λ i s l. length-drop 1 l.stack;
  reference_create_top = λ l. length-drop 1 l.stack;
  reference_push_top = λ r l. omega arith;
  reference_free_top = λ r l. refl;
  push_user_type_top = λ p t l. omega arith;
  set_user_type_top = λ i p l. refl;
  create_meta_table_top = λ s l. omega arith;
}

-- A reference is never -1 for a value that is not nil.
keep_valid : (v : Value) (r : ℕ) → type_of v ≢ pos 0 → keep v r ≢ minus_one
keep_valid nil r h e = h refl
keep_valid (boolean b) r h e = cc
keep_valid (number n) r h e = cc
keep_valid (string s) r h e = cc
keep_valid (function f) r h e = cc
keep_valid table r h e = cc
keep_valid (user u t) r h e = cc

pub machine-ReferenceLaws : ReferenceLaws lua_api
machine-ReferenceLaws = record {
  reference_create_valid = λ l h. keep_valid (top_value l.stack) l.next_reference h;
  create_table_type = λ l e. cc;
  push_user_type_type = λ p t l. refl;
  push_value_type = λ l. refl;
  reference_create_type = λ l. refl;
}

pub machine-CallbackLaws : CallbackLaws machine
machine-CallbackLaws = record {
  call_succeeded = λ n r shown w enough ran.
      omega
        (arith, length-pad r (drop (n + 1) w.lua.stack), length-drop (n + 1) w.lua.stack, enough);
  call_failed = λ n r shown w enough failed. cc;
  call_keeps_ready = λ n r shown w ready. lua-IsReady ⦃host = machine⦄ w _ w.notes ready;
  call_keeps_lua = λ n r shown w set. set;
  call_keeps_thread = λ n r shown w. refl;
  call_keeps_place =
      λ n r shown w q. record { same_slot = refl; same_entity = refl; same_server = refl };
}

pub machine-EngineLaws : EngineLaws machine
machine-EngineLaws = record {
  inactivate_others = λ p q w h. refl;
  clear_others = λ p q w h. update-ne w.client p q _ (λ e. h (sym e));
  connect_others = λ p q n u chan fake challenge w h. update-ne w.client p q _ (λ e. h (sym e));
  set_name_others = λ p q n w h. update-ne w.client p q _ (λ e. h (sym e));
  inactivate_place = λ p w. record { same_slot = refl; same_entity = refl; same_server = refl };
  clear_place = λ p w.
      let e = update_self w.client p _ in
      record {
        same_slot = ap (λ c. c.client_slot) e;
        same_entity = ap (λ c. c.entity_index) e;
        same_server = ap (λ c. c.server) e;
      };
  clear_frees = λ p w. ap (λ c. c.signon_state) (update_self w.client p _);
  connect_stores = λ p n u chan fake challenge w.
      let e = update_self w.client p _ in
      (
        record {
          same_slot = ap (λ c. c.client_slot) e;
          same_entity = ap (λ c. c.entity_index) e;
          same_server = ap (λ c. c.server) e;
        },
        ap (λ c. c.user_id) e,
        ap (λ c. c.net_channel) e,
        ap (λ c. c.fake_player) e,
        ap (λ c. c.client_challenge) e,
      );
  set_name_stores = λ p n w.
      let e = update_self w.client p _ in
      (
        record {
          same_slot = ap (λ c. c.client_slot) e;
          same_entity = ap (λ c. c.entity_index) e;
          same_server = ap (λ c. c.server) e;
        },
        ap (λ c. c.user_id) e,
        ap (λ c. c.net_channel) e,
        ap (λ c. c.fake_player) e,
        ap (λ c. c.client_challenge) e,
      );
}

-- The stack and the plugin's globals are never touched.
pub machine-QuietLaws : QuietLaws machine
machine-QuietLaws = record {
  inactivate_quiet = λ p w. objects-IsQuiet ⦃host = machine⦄ w w.client w.notes;
  clear_quiet = λ p w. objects-IsQuiet ⦃host = machine⦄ w _ w.notes;
  connect_quiet = λ p n u chan fake challenge w. objects-IsQuiet ⦃host = machine⦄ w _ w.notes;
  set_name_quiet = λ p n w. objects-IsQuiet ⦃host = machine⦄ w _ w.notes;
  reconnect_quiet = λ p w. objects-IsQuiet ⦃host = machine⦄ w w.client w.notes;
  send_net_msg_quiet = λ p info reliable w. objects-IsQuiet ⦃host = machine⦄ w w.client w.notes;
  fill_server_info_quiet = λ p info w. objects-IsQuiet ⦃host = machine⦄ w w.client w.notes;
}
