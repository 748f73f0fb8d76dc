-- ===== src/World/Laws.antt =====
-- What the plugin relies on in the code outside the repository, as the documentation of Lua's C
-- API states it. A proof takes the part that it needs.
use gmod_queue.Base.{ℕ, ℤ, minus_one, ◌+◌, ◌-◌, ◌≡◌, ◌≢◌, Bool, String}
use gmod_queue.World.Host.{LuaApi}

module _ {L : Type 0} (api : LuaApi L) where
  open api use {
    top, push_nil, push_number, push_string, push_bool, push_c_function, push_value, create_table,
    pop, remove, raw_set, get_field, set_field, get_type, type_nil, reference_create,
    reference_push, reference_free, push_user_type, set_user_type, create_meta_table,
  }

  -- How each call changes the height of the Lua stack.
  pub record StackLaws : Type 0 where
    pub push_nil_top : (l : L) → top (push_nil l) ≡ top l + 1
    pub push_number_top : (n : ℤ) (l : L) → top (push_number n l) ≡ top l + 1
    pub push_string_top : (s : String) (l : L) → top (push_string s l) ≡ top l + 1
    pub push_bool_top : (b : Bool) (l : L) → top (push_bool b l) ≡ top l + 1
    pub push_c_function_top : (s : String) (l : L) → top (push_c_function s l) ≡ top l + 1
    pub push_value_top : (i : ℤ) (l : L) → top (push_value i l) ≡ top l + 1
    pub create_table_top : (l : L) → top (create_table l) ≡ top l + 1
    pub pop_top : (n : ℕ) (l : L) → top (pop n l) ≡ top l - n
    pub remove_top : (i : ℤ) (l : L) → top (remove i l) ≡ top l - 1
    pub raw_set_top : (i : ℤ) (l : L) → top (raw_set i l) ≡ top l - 2
    pub get_field_top : (i : ℤ) (s : String) (l : L) → top (get_field i s l) ≡ top l + 1
    pub set_field_top : (i : ℤ) (s : String) (l : L) → top (set_field i s l) ≡ top l - 1
    pub reference_create_top : (l : L) → top (reference_create l).1 ≡ top l - 1
    pub reference_push_top : (r : ℤ) (l : L) → top (reference_push r l) ≡ top l + 1
    pub reference_free_top : (r : ℤ) (l : L) → top (reference_free r l) ≡ top l
    pub push_user_type_top : (p : ℕ) (t : ℤ) (l : L) → top (push_user_type p t l) ≡ top l + 1
    pub set_user_type_top : (i : ℤ) (p : ℕ) (l : L) → top (set_user_type i p l) ≡ top l
    pub create_meta_table_top : (s : String) (l : L) → top (create_meta_table s l).1 ≡ top l + 1

  -- What a registry reference is: -1 stands for no reference, and `luaL_ref` returns it for nil
  -- alone; storing a value takes it off the stack and leaves the values below.
  pub record ReferenceLaws : Type 0 where
    pub reference_create_valid :
        (l : L) → get_type minus_one l ≢ type_nil → (reference_create l).0 ≢ minus_one
    pub create_table_type : (l : L) → get_type minus_one (create_table l) ≢ type_nil
    pub push_user_type_type :
        (p : ℕ) (t : ℤ) (l : L) → get_type minus_one (push_user_type p t l) ≡ t
    pub push_value_type :
        (l : L) → get_type minus_one (push_value minus_one l) ≡ get_type minus_one l
    pub reference_create_type :
        (l : L) → get_type minus_one (reference_create (create_table l)).1 ≡ get_type minus_one l
