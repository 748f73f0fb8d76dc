-- ===== src/Examples/Machine.antt =====
-- An interpreter that keeps a stack of values and a registry, and an engine whose functions act on
-- the client objects by address.
use gmod_queue.Base.{
  ℕ, zero, suc, ◌+◌, ◌-◌, ℤ, pos, negsuc, minus_one, Bool, true, false, String, Option, none, some,
  List, [], ◌∷◌, ltb, get_elem?, length, drop, lookup, update, if◌then◌else◌,
}
use gmod_queue.Engine.Protocol.{signonstate_none, signonstate_connected}
use gmod_queue.Engine.Client.{Client}
use gmod_queue.Engine.ServerInfo.{ServerInfo}
use gmod_queue.World.Host.{LuaApi, EngineApi, Host}
use gmod_queue.World.Memory.{store_client}

-- A value of Lua, as far as the plugin tells values apart. A user object has an identity and a type.
pub data Value : Type 0 where
  nil : Value
  boolean : Bool → Value
  number : ℤ → Value
  string : String → Value
  function : String → Value
  table : Value
  user : ℕ → ℤ → Value

pub record Machine : Type 0 where
  pub stack : List Value
  pub registry : List (ℕ × Value)
  pub next_reference : ℕ
  pub pointers : ℕ → ℕ
  pub next_object : ℕ

-- The type numbers of `GarrysMod::Lua::Type`; a user type has its own.
abbrev pub type_of : Value → ℤ
type_of nil = pos 0
type_of (boolean b) = pos 1
type_of (number n) = pos 3
type_of (string s) = pos 4
type_of table = pos 5
type_of (function f) = pos 6
type_of (user u t) = t

abbrev pub push : Value → Machine → Machine
push v m = record m { stack = v ∷ m.stack }

abbrev pub or_nil : Option Value → Value
or_nil none = nil
or_nil (some v) = v

-- The value on top, or nil.
abbrev pub top_value : List Value → Value
top_value [] = nil
top_value (v ∷ vs) = v

-- The value at a position: positions from the bottom are those of a function's arguments.
abbrev pub value_at : ℤ → Machine → Value
value_at (negsuc zero) m = top_value m.stack
value_at (negsuc (suc i)) m = or_nil (get_elem? m.stack (suc i))
value_at (pos i) m = or_nil (get_elem? m.stack (length m.stack - i))

abbrev pub remove_second : List Value → List Value
remove_second [] = []
remove_second (v ∷ []) = []
remove_second (v ∷ u ∷ vs) = v ∷ vs

-- `luaL_ref`: -1 for nil.
abbrev pub keep : Value → ℕ → ℤ
keep nil r = minus_one
keep (boolean b) r = pos r
keep (number n) r = pos r
keep (string s) r = pos r
keep (function f) r = pos r
keep table r = pos r
keep (user u t) r = pos r

abbrev pub find_reference : ℤ → List (ℕ × Value) → Value
find_reference (pos r) known = or_nil (lookup r known)
find_reference (negsuc r) known = nil

-- The globals: `hook` is a table, and a field of the table on top is a function.
abbrev pub field_at : ℤ → Value
field_at (negsuc zero) = function "Run"
field_at (negsuc (suc i)) = table
field_at (pos i) = table

abbrev pub pad : ℕ → List Value → List Value
pad zero vs = vs
pad (suc n) vs = boolean true ∷ pad n vs

abbrev pub as_number : Value → Option ℤ
as_number (number n) = some n
as_number nil = none
as_number (boolean b) = none
as_number (string s) = none
as_number (function f) = none
as_number table = none
as_number (user u t) = none

abbrev pub number_or_zero : Option ℤ → ℤ
number_or_zero none = pos 0
number_or_zero (some n) = n

-- The user object that a value is.
abbrev pub object_of : Value → Option ℕ
object_of (user o t) = some o
object_of nil = none
object_of (boolean b) = none
object_of (number n) = none
object_of (string s) = none
object_of (function f) = none
object_of table = none

-- The pointer that an object carries: none before it is made.
abbrev pub pointer_of : Machine → ℕ → ℕ
pointer_of m o = if ltb o m.next_object then m.pointers o else 0

abbrev pub user_pointer : Machine → Option ℕ → ℕ
user_pointer m none = 0
user_pointer m (some o) = pointer_of m o

abbrev pub set_pointer : Option ℕ → ℕ → (ℕ → ℕ) → ℕ → ℕ
set_pointer none p pointers = pointers
set_pointer (some o) p pointers = update pointers o p

abbrev pub truth : Value → Bool
truth (boolean b) = b
truth nil = false
truth (number n) = true
truth (string s) = true
truth (function f) = true
truth table = true
truth (user u t) = true

abbrev pub lua_api : LuaApi Machine
lua_api = record {
  top = λ m. length m.stack;
  push_nil = push nil;
  push_number = λ n. push (number n);
  push_string = λ s. push (string s);
  push_bool = λ b. push (boolean b);
  push_c_function = λ s. push (function s);
  push_value = λ i m. push (value_at i m) m;
  create_table = push table;
  pop = λ n m. record m { stack = drop n m.stack };
  remove = λ i m. record m { stack = remove_second m.stack };
  raw_set = λ i m. record m { stack = drop 2 m.stack };
  get_field = λ i name. push (field_at i);
  set_field = λ i name m. record m { stack = drop 1 m.stack };
  get_type = λ i m. type_of (value_at i m);
  type_nil = pos 0;
  type_table = pos 5;
  type_function = pos 6;
  reference_create = λ m. (
    keep (top_value m.stack) m.next_reference,
    record {
      stack = drop 1 m.stack;
      registry = (m.next_reference, top_value m.stack) ∷ m.registry;
      next_reference = m.next_reference + 1;
      pointers = m.pointers;
      next_object = m.next_object;
    },
  );
  reference_push = λ r m. push (find_reference r m.registry) m;
  reference_free = λ r m. m;
  push_user_type = λ u t m. record m {
    stack = user m.next_object t ∷ m.stack;
    pointers = update m.pointers m.next_object u;
    next_object = m.next_object + 1;
  };
  set_user_type =
      λ i u m. record m { pointers = set_pointer (object_of (value_at i m)) u m.pointers };
  get_user_type = λ i t m. user_pointer m (object_of (value_at i m));
  create_meta_table = λ name m. (pos 100, push table m);
  check_number = λ i m. as_number (value_at i m);
  get_number = λ i m. number_or_zero (as_number (value_at i m));
  get_bool = λ i m. truth (value_at i m);
  check_string = λ i m. some "reason";
  find_on_objects_meta_table = λ i j m. (false, push nil m);
  find_object_on_table = λ i j m. (true, push nil m);
}

abbrev pub free_slot : Client → Client
free_slot c = record c { signon_state = signonstate_none; net_channel = 0 }

abbrev pub connected_to : ℤ → ℕ → Bool → ℤ → Client → Client
connected_to u chan fake challenge c = record c {
  user_id = u;
  net_channel = chan;
  fake_player = fake;
  client_challenge = challenge;
  signon_state = signonstate_connected;
}

-- `SVC_ServerInfo` as its constructor leaves it.
abbrev pub blank : ServerInfo
blank = record {
  protocol = pos 0;
  server_count = pos 0;
  is_dedicated = true;
  is_hltv = false;
  os = 0;
  map_crc = 0;
  map_md5 = 0;
  max_clients = pos 0;
  max_classes = pos 0;
  player_slot = pos 0;
  tick_interval = 0;
  game_dir = "";
  map_name = "";
  sky_name = "";
  host_name = "";
}

abbrev pub engine_api : EngineApi Machine
engine_api = record {
  call_function_protected = λ n r shown w.
      (true, record w { lua = record w.lua { stack = pad r (drop (n + 1) w.lua.stack) } });
  inactivate = λ p w. w;
  clear = λ p w. store_client p (free_slot (w.client p)) w;
  connect = λ p n u chan fake challenge w.
      store_client p (connected_to u chan fake challenge (w.client p)) w;
  set_name = λ p n w. store_client p (record (w.client p) { name = n }) w;
  reconnect = λ p w. w;
  disconnect = λ p reason w. store_client p (free_slot (w.client p)) w;
  client_printf = λ p s w. w;
  send_net_msg = λ p info reliable w. w;
  get_network_id_string = λ p w. "STEAM_0:0:1";
  set_signon_state = λ p s n w. (true, store_client p (record (w.client p) { signon_state = s }) w);
  blank_server_info = blank;
  fill_server_info = λ s info w. (record info { protocol = pos 24; max_clients = pos 255 }, w);
  spawn_player = λ p w. w;
  notify_client_disconnect = λ s p w. w;
  print_client = λ size format slot name. name;
}

abbrev pub machine : Host Machine
machine = record { lua_api = lua_api; engine_api = engine_api }
