-- ===== src/Examples/CallWitnesses.antt =====
-- The small interpreter keeps the plugin in order, and a method is called in it.
use gmod_queue.Base.{ℕ, pos, refl, inr, [], ◌∷◌, arith}
use gmod_queue.World.State.{World}
use gmod_queue.World.Frame.{IsUntouched}
use gmod_queue.World.Memory.{store_client}
use gmod_queue.Engine.Client.{Client}
use gmod_queue.Move.Quiet.{objects-IsQuiet}
use gmod_queue.Calls.{LuaCall, run_call}
use gmod_queue.Calls.Order.{InOrder, lua-InOrder}
use gmod_queue.Calls.Fields.{LookupLaws}
use gmod_queue.Calls.Engine.{OrderLaws}
use gmod_queue.Calls.Safe.{Needs, run_call-IsSafe}
use gmod_queue.Calls.Look.{run_call-IsUntouched}
use gmod_queue.Examples.Machine.{Machine, Value, machine, lua_api}
use gmod_queue.Examples.Laws.{machine-StackLaws, machine-ReferenceLaws, machine-CallbackLaws}
use gmod_queue.Examples.Server.{start, box, start-IsReady}

pub machine-LookupLaws : LookupLaws lua_api
machine-LookupLaws = record { first_type = λ l. refl; first_pointer = λ t l. refl }

-- Another client object at an address.
stored-InOrder :
    (p : ℕ) (c : Client) (w : World Machine)
    → InOrder ⦃host = machine⦄ w
    → InOrder ⦃host = machine⦄ (store_client p c w)
stored-InOrder p c w o = record {
  ready = (objects-IsQuiet ⦃host = machine⦄ w (store_client p c w).client w.notes).ready o.ready;
  up = o.up;
  thread = o.thread;
}

pub machine-OrderLaws : OrderLaws machine
machine-OrderLaws = record {
  reconnect_order = λ p w o. o;
  disconnect_order = λ p s w o. stored-InOrder p _ w o;
  client_printf_order = λ p s w o. o;
  set_signon_state_order = λ p state spawncount w o. stored-InOrder p _ w o;
  notify_client_disconnect_order = λ steam p w o. o;
}

-- A method is called on the object of client 1.
abbrev pub asks : Machine
asks = record start.lua { stack = Value.user 1 (pos 100) ∷ [] }

abbrev pub asking : World Machine
asking = record start { lua = asks }

pub asking-InOrder : InOrder ⦃host = machine⦄ asking
asking-InOrder =
    lua-InOrder ⦃host = machine⦄ start asks
      (record { ready = start-IsReady; up = refl; thread = refl })

pub asking_handle : Needs ⦃host = machine⦄ LuaCall.get_table asking
asking_handle e = inr ((λ q. omega arith), (box, refl))

-- After a call of `GetTable`.
abbrev pub asked : World Machine
asked = (run_call ⦃host = machine⦄ LuaCall.get_table asking).1

pub asked-InOrder : InOrder ⦃host = machine⦄ asked
asked-InOrder =
    (run_call-IsSafe ⦃host = machine⦄ machine-StackLaws machine-ReferenceLaws machine-LookupLaws
      machine-CallbackLaws machine-OrderLaws LuaCall.get_table asking asking-InOrder
      asking_handle).1

pub asked-IsUntouched : IsUntouched asking asked
asked-IsUntouched = run_call-IsUntouched Machine ⦃host = machine⦄ LuaCall.get_table tt asking
