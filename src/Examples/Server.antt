-- ===== src/Examples/Server.antt =====
-- A server with 129 client slots: two players are on, slots 2 to 127 are free, and the client at
-- slot 128 is queued.
use mathlib.Core.Path.{subst}
use gmod_queue.Base.{
  ℕ, zero, suc, ◌+◌, ◌-◌, ℤ, pos, minus_one, ◌==◌, ltb, ◌≡◌, refl, sym, ap, true, false, none, some,
  List, [], ◌∷◌, arith, get_elem?, if◌then◌else◌, lookup,
}
use gmod_queue.Engine.Client.{Client, Session}
use gmod_queue.Engine.NetChan.{NetChan}
use gmod_queue.Messages.Classes.{clc, ClcKind}
use gmod_queue.Messages.Object.{NetMessage}
use gmod_queue.Engine.Server.{ServerState}
use gmod_queue.Engine.Protocol.{signonstate_none, signonstate_full, signonstate_new}
use gmod_queue.World.State.{World, UserData}
use gmod_queue.UserData.Registry.{IsRegistry, IsBox}
use gmod_queue.Hooks.Callback.{IsReady}
use gmod_queue.Slots.Layout.{IsLayout}
use gmod_queue.Examples.Machine.{Machine, Value, machine}

abbrev pub session : ℕ → Session
session id = record {
  steam_id = id;
  friends_id = id;
  files_downloaded = pos 0;
  signon_tick = pos 0;
  string_table_ack_tick = pos 0;
  delta_tick = minus_one;
  sendtable_crc = 0;
  next_message_time = 0;
  snapshot_interval = 0;
  force_wait_for_tick = minus_one;
  report_fake_client = true;
  received_packet = false;
  fully_authenticated = true;
  friends_name = "";
  guid = "";
  time_last_name_change = 0;
  player_name_locked = false;
  pending_name_change = "";
}

abbrev pub queued_client : ℕ
queued_client = 129

abbrev pub state_at : ℕ → ℤ
state_at p =
    if ltb p 3
    then signonstate_full
    else if p == queued_client
    then signonstate_new
    else signonstate_none

-- The client object at an address: `p` stands at slot `p - 1`.
abbrev pub client_of : ℕ → Client
client_of p = record {
  client_slot = pos (p - 1);
  entity_index = pos p;
  user_id = pos (p + 1);
  name = "player";
  server = 500;
  client_challenge = pos 0;
  net_channel = if p == queued_client then 700 else 0;
  signon_state = state_at p;
  fake_player = false;
  session = session p;
}

abbrev pub count_from : ℕ → ℕ → List ℕ
count_from k zero = []
count_from k (suc n) = k ∷ count_from (suc k) n

pub get_elem?-count_from : (k n i p : ℕ) → get_elem? (count_from k n) i ≡ some p → p ≡ k + i
get_elem?-count_from k zero i p e = cc
get_elem?-count_from k (suc n) zero p e = ground arith
get_elem?-count_from k (suc n) (suc i) p e = omega (arith, get_elem?-count_from (suc k) n i p e)

-- A client's command, which holds key values, and its moves.
abbrev pub message_of : ClcKind → NetMessage
message_of kind = record {
  class = clc kind;
  reliable = true;
  net_channel = 700;
  member = λ i. if i == 0 then 9 else queued_client;
}

abbrev pub channel_of : ℕ → NetChan
channel_of c = record {
  message_handler = queued_client;
  net_messages =
      message_of ClcKind.cmd_key_values
      ∷ record (message_of ClcKind.move) { member = λ i. queued_client }
      ∷ [];
}

-- Client 1 is registered with the box at address 1.
abbrev pub box : UserData
box = record { object = 1; reference = pos 0; table_reference = pos 1; additional_data = pos 0 }

abbrev pub start : World Machine
start = record {
  lua = record {
    stack = Value.number (pos 2) ∷ [];
    registry = (0, Value.user 1 (pos 100)) ∷ (1, Value.table) ∷ [];
    next_reference = 2;
    pointers = λ o. if o == 1 then 1 else 0;
    next_object = 2;
  };
  lua_set = true;
  main_thread = true;
  server = 500;
  server_object = record {
    state = ServerState.active;
    clients = count_from 1 129;
    max_clients = 129;
    tick_count = 0;
    spawn_count = 1;
  };
  client = client_of;
  channel = channel_of;
  client_type_id = pos 100;
  user_data = λ p. if p == 1 then some box else none;
  next_user_data = 2;
  pushed = (1, 1) ∷ [];
  notes = [];
}

pub start-IsRegistry : IsRegistry start
start-IsRegistry = record {
  keys = (refl, tt);
  started = omega arith;
  boxed = λ c u e. (
    box,
    subst (λ t. IsBox start.user_data 2 t u box) (sym (key_is c u e))
        (subst (λ t. IsBox start.user_data 2 1 t box) (sym (value_is c u e))
          record {
            allocated = refl;
            below = omega arith;
            real = λ q. omega arith;
            boxes = refl;
            referenced = λ q. cc;
            tabled = λ q. cc;
          }),
  );
}
  where
    key_is : (c u : ℕ) → lookup c start.pushed ≡ some u → c ≡ 1
    key_is c u e = ground arith

    value_is : (c u : ℕ) → lookup c start.pushed ≡ some u → u ≡ 1
    value_is c u e = ground arith

pub start-IsReady : IsReady ⦃host = machine⦄ start
start-IsReady = record { registry = start-IsRegistry; typed = λ e. cc }

pub start-IsLayout : IsLayout start
start-IsLayout = record {
  homed = λ i p e q. omega arith;
  known = λ e. omega arith;
  placed = λ i p e.
      let at = get_elem?-count_from 1 129 i p e in
      (λ q. omega arith, ap pos (omega (arith, at)), ap pos (omega (arith, at)));
}
