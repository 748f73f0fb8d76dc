-- ===== src/Examples/SessionWitnesses.antt =====
-- A session on the small server: Lua code asks for a client's table, a client disconnects and another
-- one's sign-on state is set.
use gmod_queue.Base.{pos, refl, arith}
use gmod_queue.World.State.{World}
use gmod_queue.Calls.{LuaCall}
use gmod_queue.Calls.Order.{InOrder}
use gmod_queue.Calls.Safe.{IsSafe}
use gmod_queue.Entries.{Entry, enter}
use gmod_queue.Entries.Safe.{HostLaws, enter-IsSafe}
use gmod_queue.Entries.Session.{
  Session, over, entered, engine_ran, IsFaultless, Session-IsFaultless,
}
use gmod_queue.Examples.Machine.{Machine, machine, free_slot}
use gmod_queue.Examples.Laws.{
  machine-StackLaws, machine-ReferenceLaws, machine-CallbackLaws, machine-EngineLaws,
  machine-QuietLaws,
}
use gmod_queue.Examples.Server.{start, client_of}
use gmod_queue.Examples.SeatingWitnesses.{machine-HallLaws}
use gmod_queue.Examples.CallWitnesses.{
  machine-LookupLaws, machine-OrderLaws, asking, asking-InOrder, asking_handle,
}

machine-HostLaws : HostLaws machine
machine-HostLaws = record {
  stack = machine-StackLaws;
  references = machine-ReferenceLaws;
  lookup = machine-LookupLaws;
  callback = machine-CallbackLaws;
  order = machine-OrderLaws;
  quiet = machine-QuietLaws;
  engine = machine-EngineLaws;
  hall = machine-HallLaws;
}

enter-IsSafe_example :
    IsSafe ⦃host = machine⦄ (enter ⦃host = machine⦄ (Entry.from_lua LuaCall.get_table) asking)
enter-IsSafe_example =
    enter-IsSafe ⦃host = machine⦄ machine-HostLaws (Entry.from_lua LuaCall.get_table) asking
      asking-InOrder asking_handle

abbrev listed : World Machine
listed = (enter ⦃host = machine⦄ (Entry.from_lua LuaCall.get_table) asking).1

abbrev gone : World Machine
gone = (enter ⦃host = machine⦄ (Entry.notify_client_disconnect 0 2) listed).1

abbrev freed : World Machine
freed = record gone {
  server_object = start.server_object;
  client = λ p. free_slot (client_of p);
  channel = start.channel;
}

abbrev signed : World Machine
signed = (enter ⦃host = machine⦄ (Entry.set_signon_state 1 (pos 6) (pos 1)) freed).1

evening : Session ⦃host = machine⦄ asking signed
evening = entered (Entry.from_lua LuaCall.get_table) asking_handle refl (
    entered (Entry.notify_client_disconnect 0 2) (λ e. omega arith) refl
      (engine_ran start.server_object (λ p. free_slot (client_of p)) start.channel refl
        (entered (Entry.set_signon_state 1 (pos 6) (pos 1)) tt refl over)))

Session-IsFaultless_example : IsFaultless ⦃host = machine⦄ evening × InOrder ⦃host = machine⦄ signed
Session-IsFaultless_example =
    Session-IsFaultless ⦃host = machine⦄ machine-HostLaws evening asking-InOrder
