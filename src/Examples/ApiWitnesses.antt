-- ===== src/Examples/ApiWitnesses.antt =====
-- The theorems on the Lua functions, the plugin's life and the detours, applied to the small server.
use gmod_queue.Base.{
  ℕ, zero, suc, pos, ◌≡◌, refl, ◌≢◌, ◌⊎◌, inr, Bool, true, false, [], ◌∷◌, arith, All, List, update,
}
use gmod_queue.Engine.Client.{is_connected, get_user_id}
use gmod_queue.World.State.{UserData, World}
use gmod_queue.World.Monad.{ok, err, fault, ◌>>=◌}
use gmod_queue.UserData.{get_client, get_client_data, check_box, delete_client}
use gmod_queue.Hooks.{hook_set_signon_state}
use gmod_queue.Hooks.Callback.{IsReady}
use gmod_queue.ClientApi.{
  client_get_table, push_number_of, push_bool_of, client_set_signon_state, client_new_index,
  client_get_name, client_get_steam_id, client_is_valid, client_to_string, client_index,
}
use gmod_queue.ClientApi.Methods.{client_set_signon_state-outcome}
use gmod_queue.ClientApi.Handle.{HandleOutcome, get_client-outcome}
use gmod_queue.ClientApi.Table.{IsOwnTable, client_get_table-IsOwnTable}
use gmod_queue.GameServer.{server_get_client, server_get_all}
use gmod_queue.GameServer.Frame.{looking-IsUntouched}
use gmod_queue.World.Frame.{IsUntouched}
use gmod_queue.GameServer.Listing.{IsListing, IsRegistered, server_get_all-outcome}
use gmod_queue.Plugin.{found, no_shared, queue_init_lua, load_lua}
use gmod_queue.Plugin.Library.{installed_library, queue_init_lua-IsLevel}
use gmod_queue.Plugin.Lifetime.{IsSound, fresh, load_lua_faults}
use gmod_queue.Plugin.Callbacks.{
  Callback, on_server_activate, on_client_active, on_set_command_client, on_level_shutdown,
  handle_all, IsKept, handle_all-IsKept,
}
use gmod_queue.Examples.Machine.{Machine, Value, machine}
use gmod_queue.Examples.Laws.{machine-StackLaws, machine-ReferenceLaws}
use gmod_queue.Examples.Server.{start, box, count_from, start-IsReady}

-- A call of a method of client 1: its object is the argument.
abbrev method_call : World Machine
method_call = record start { lua = record start.lua { stack = Value.user 1 (pos 100) ∷ [] } }

get_client-outcome_example : HandleOutcome ⦃host = machine⦄ (pos 1) true method_call
get_client-outcome_example =
    get_client-outcome ⦃host = machine⦄ (pos 1) method_call refl true
      (λ e. inr ((λ q. omega arith), (box, refl)))

method_call_data : get_client_data ⦃host = machine⦄ (pos 1) true method_call ≡ (ok 1, method_call)
unfolding get_client_data check_box ◌>>=◌
method_call_data = refl

client_get_table-IsOwnTable_example :
    (w' : World Machine) × (client_get_table ⦃host = machine⦄ method_call ≡ (ok 1, w'))
    × IsOwnTable ⦃host = machine⦄ machine-StackLaws 1 box
        (get_user_id (method_call.client 1))
        method_call
        w'
client_get_table-IsOwnTable_example =
    client_get_table-IsOwnTable ⦃host = machine⦄ machine-StackLaws method_call 1 box
      method_call_data refl (λ e. omega arith)

looking-IsUntouched_example :
    IsUntouched start (server_get_client ⦃host = machine⦄ start).1
    × IsUntouched start (server_get_all ⦃host = machine⦄ start).1
    × IsUntouched start (push_number_of ⦃host = machine⦄ get_user_id start).1
    × IsUntouched start (push_bool_of ⦃host = machine⦄ is_connected start).1
    × IsUntouched start (client_get_name ⦃host = machine⦄ start).1
    × IsUntouched start (client_get_steam_id ⦃host = machine⦄ start).1
    × IsUntouched start (client_is_valid ⦃host = machine⦄ start).1
    × IsUntouched start (client_get_table ⦃host = machine⦄ start).1
    × IsUntouched start (client_to_string ⦃host = machine⦄ start).1
    × IsUntouched start (client_index ⦃host = machine⦄ start).1
    × IsUntouched start (client_new_index ⦃host = machine⦄ start).1
    × IsUntouched start (delete_client ⦃host = machine⦄ 1 start).1
looking-IsUntouched_example =
    looking-IsUntouched Machine ⦃host = machine⦄ start get_user_id is_connected 1

every_real : (k n : ℕ) → All (λ p. p ≢ 0) (count_from (suc k) n)
every_real k zero = tt
every_real k (suc n) = ((λ e. omega arith), every_real (suc k) n)

server_get_all-outcome_example :
    (w' : World Machine) × (server_get_all ⦃host = machine⦄ start ≡ (ok 1, w'))
    × IsListing ⦃host = machine⦄ 0 start.server_object.clients
        (record start { lua = machine.create_table start.lua })
        w'
    × IsReady ⦃host = machine⦄ w'
    × (machine.top w'.lua ≡ 2)
    × ((j : ℕ) → IsRegistered j start → IsRegistered j w')
    × All
        (λ p. is_connected (start.client p) ≡ true → IsRegistered p w')
        start.server_object.clients
server_get_all-outcome_example =
    server_get_all-outcome ⦃host = machine⦄ machine-StackLaws machine-ReferenceLaws start
      start-IsReady refl (λ e. omega arith) refl (every_real 0 129)

-- The process before the first `ServerActivate`.
abbrev before_lua : World Machine
before_lua = record start { lua_set = false }

load_lua_faults_example : (load_lua ⦃host = machine⦄ 500 before_lua).0 ≡ err fault
load_lua_faults_example = load_lua_faults ⦃host = machine⦄ 500 before_lua refl

queue_init_lua-IsLevel_example :
    (queue_init_lua ⦃host = machine⦄ start ≡ (
      ok tt,
      record start { lua = installed_library ⦃host = machine⦄ start.lua; client_type_id = pos 100 },
    ))
    × (machine.top (installed_library ⦃host = machine⦄ start.lua) ≡ 1)
queue_init_lua-IsLevel_example =
    queue_init_lua-IsLevel ⦃host = machine⦄ machine-StackLaws start refl

-- `client:SetSignonState(5, 1, true)`.
abbrev raw_set_call : World Machine
raw_set_call = record start {
  lua = record start.lua {
    stack =
        Value.boolean true
        ∷ Value.number (pos 1)
        ∷ Value.number (pos 5)
        ∷ Value.user 1 (pos 100)
        ∷ [];
  };
}

raw_set_call_client : get_client ⦃host = machine⦄ (pos 1) true raw_set_call ≡ (ok 1, raw_set_call)
unfolding get_client get_client_data check_box ◌>>=◌
raw_set_call_client = refl

client_set_signon_state-outcome_example :
    ((true ≡ true)
      × (client_set_signon_state ⦃host = machine⦄ raw_set_call ≡ (
        ok 1,
        record raw_set_call {
          client =
              update raw_set_call.client 1
                (record (raw_set_call.client 1) { signon_state = pos 5 });
          lua = machine.push_bool true raw_set_call.lua;
        },
      )))
    ⊎ ((true ≡ false)
        × ((done : Bool) (v : World Machine)
            → hook_set_signon_state ⦃host = machine⦄ 1 (pos 5) (pos 1) raw_set_call ≡ (ok done, v)
            → client_set_signon_state ⦃host = machine⦄ raw_set_call
              ≡ (ok 1, record v { lua = machine.push_bool done v.lua })))
client_set_signon_state-outcome_example =
    client_set_signon_state-outcome ⦃host = machine⦄ raw_set_call 1
      ((λ e. omega arith), raw_set_call_client) (pos 5) refl

-- Two levels, the second of which finds no interpreter, and a client in between.
abbrev a_day : List Callback
a_day =
    on_server_activate found
    ∷ on_client_active
    ∷ on_set_command_client (pos 3)
    ∷ on_level_shutdown
    ∷ on_server_activate no_shared
    ∷ []

handle_all-IsKept_example :
    IsSound (handle_all a_day (fresh, before_lua)).0 (handle_all a_day (fresh, before_lua)).1
    × IsKept before_lua (handle_all a_day (fresh, before_lua)).1
handle_all-IsKept_example = handle_all-IsKept a_day fresh before_lua (λ e. cc)
