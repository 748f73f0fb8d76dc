-- ===== src/Examples/Witnesses.antt =====
-- The theorems on lookups, slots, the registry and the hooks, applied to the small server.
use gmod_queue.Base.{ℕ, suc, ℤ, pos, negsuc, ◌≡◌, refl, ◌≢◌, ◌⊎◌, false, none, arith, lookup}
use gmod_queue.World.State.{World}
use gmod_queue.World.Monad.{ok, err, fault}
use gmod_queue.Util.{get_client_by_index, get_client_by_user_id}
use gmod_queue.Util.Lookup.{
  IndexLookup, get_client_by_index_total, UserIdLookup, get_client_by_user_id_total,
}
use gmod_queue.Slots.{find_free_client_slot}
use gmod_queue.Slots.Layout.{IsFull, IsFirstFree, find_free_client_slot-first}
use gmod_queue.UserData.{push_client, delete_client}
use gmod_queue.UserData.Registry.{IsRegistry}
use gmod_queue.UserData.Push.{IsPushed}
use gmod_queue.UserData.Once.{push_client-IsPushed}
use gmod_queue.UserData.Delete.{
  IsForgotten, delete_client-IsForgotten, delete_client_off_main_thread,
}
use gmod_queue.Hooks.{on_client_disconnect}
use gmod_queue.Hooks.Pushed.{PushOutcome, push_hook-outcome}
use gmod_queue.Hooks.Callback.{IsReady}
use gmod_queue.Hooks.Disconnect.{Told, on_client_disconnect-outcome}
use gmod_queue.Spawn.Cases.{SpawnOutcome, hook_spawn_player-cases}
use gmod_queue.Move.{move_client, transfer, nuke_origin}
use gmod_queue.Move.Transfer.{IsTransferred, transfer-outcome}
use gmod_queue.Move.Quiet.{IsQuiet}
use gmod_queue.Move.Total.{move_client-IsQuiet}
use gmod_queue.Move.Vacate.{IsVacated, unplugged, nuke_origin-IsVacated}
use gmod_queue.Examples.Machine.{Machine, machine}
use gmod_queue.Examples.Laws.{
  machine-StackLaws, machine-ReferenceLaws, machine-CallbackLaws, machine-EngineLaws,
  machine-QuietLaws,
}
use gmod_queue.Examples.Server.{
  start, queued_client, start-IsRegistry, start-IsReady, start-IsLayout,
}

get_client_by_index_total_example :
    (p : ℕ) × (get_client_by_index (negsuc 4) start ≡ (ok p, start))
    × IndexLookup start (negsuc 4) p
get_client_by_index_total_example = get_client_by_index_total start (negsuc 4) (λ e. omega arith)

get_client_by_user_id_total_example :
    (p : ℕ) × (get_client_by_user_id (pos 3) start ≡ (ok p, start))
    × UserIdLookup start (pos 3) start.server_object.clients p
get_client_by_user_id_total_example = get_client_by_user_id_total start (pos 3) (λ e. omega arith)

find_free_client_slot-first_example :
    (r : ℤ) × (find_free_client_slot start ≡ (ok r, start))
    × (((r ≡ pos 255) × IsFull start)
        ⊎ ((i : ℕ) × (p : ℕ) × (r ≡ pos (suc i)) × IsFirstFree start i p))
find_free_client_slot-first_example = find_free_client_slot-first start start-IsLayout

hook_spawn_player-cases_example : SpawnOutcome ⦃host = machine⦄ start queued_client
hook_spawn_player-cases_example =
    hook_spawn_player-cases ⦃host = machine⦄ start start-IsLayout queued_client (λ e. omega arith)

-- Client 2 is not registered yet.
push_client-IsPushed_example :
    (w' : World Machine) × (push_client ⦃host = machine⦄ 2 start ≡ (ok tt, w'))
    × IsPushed 2 start w'
    × (machine.top w'.lua ≡ 2)
push_client-IsPushed_example =
    push_client-IsPushed ⦃host = machine⦄ machine-StackLaws machine-ReferenceLaws start 2
      start-IsRegistry start-IsReady.typed refl

delete_client-IsForgotten_example :
    (w' : World Machine) × (delete_client ⦃host = machine⦄ 1 start ≡ (ok tt, w'))
    × IsForgotten 1 start w'
    × (machine.top w'.lua ≡ 1)
delete_client-IsForgotten_example =
    delete_client-IsForgotten ⦃host = machine⦄ machine-StackLaws start 1 start-IsRegistry refl refl

abbrev off_main : World Machine
off_main = record start { main_thread = false }

off_main-IsRegistry : IsRegistry off_main
off_main-IsRegistry =
    let reg = start-IsRegistry in
    record { keys = reg.keys; started = reg.started; boxed = reg.boxed }

delete_client_off_main_thread_example :
    let (r, w') = delete_client ⦃host = machine⦄ 1 off_main in
    (r ≡ ok tt) × (w'.lua ≡ start.lua) × (w'.user_data 1 ≡ none) × (lookup 1 w'.pushed ≡ none)
delete_client_off_main_thread_example =
    delete_client_off_main_thread ⦃host = machine⦄ off_main 1 1 off_main-IsRegistry refl refl

push_hook-outcome_example : PushOutcome ⦃host = machine⦄ "PlayerQueue:OnClientDisconnect" start
push_hook-outcome_example =
    push_hook-outcome ⦃host = machine⦄ machine-StackLaws start "PlayerQueue:OnClientDisconnect"

on_client_disconnect-outcome_example :
    (((start.client 1).server ≢ start.server)
      × (on_client_disconnect ⦃host = machine⦄ 1 start ≡ (ok tt, start)))
    ⊎ (((start.client 1).server ≡ start.server)
        × (u : World Machine) × (w' : World Machine) × (on_client_disconnect ⦃host = machine⦄ 1
              start
            ≡ (ok tt, w'))
        × Told ⦃host = machine⦄ machine-StackLaws machine-ReferenceLaws machine-CallbackLaws 1 start
            u
        × IsForgotten 1 u w'
        × (machine.top w'.lua ≡ 1)
        × IsReady ⦃host = machine⦄ w')
on_client_disconnect-outcome_example =
    on_client_disconnect-outcome ⦃host = machine⦄ machine-StackLaws machine-ReferenceLaws
      machine-CallbackLaws 1 start start-IsReady refl refl (λ e. omega arith)

transfer-outcome_example :
    (((start.client queued_client).net_channel ≢ 0)
      × ((w' : World Machine) × (transfer ⦃host = machine⦄ queued_client 3 start ≡ (ok tt, w'))
          × IsTransferred queued_client 3 start w'))
    ⊎ (((start.client queued_client).net_channel ≡ 0)
        × ((transfer ⦃host = machine⦄ queued_client 3 start).0 ≡ err fault))
transfer-outcome_example =
    transfer-outcome ⦃host = machine⦄ machine-EngineLaws start queued_client 3 (λ e. omega arith)
      (λ e. omega arith) (λ e. omega arith)

nuke_origin-IsVacated_example :
    (((unplugged queued_client start).client queued_client).net_channel ≡ 0)
    × (nuke_origin ⦃host = machine⦄ queued_client start ≡ (
      ok tt,
      machine.clear queued_client
          (machine.inactivate queued_client (unplugged queued_client start)),
    ))
    × IsVacated queued_client start (
        machine.clear queued_client
          (machine.inactivate queued_client (unplugged queued_client start)))
nuke_origin-IsVacated_example =
    nuke_origin-IsVacated ⦃host = machine⦄ machine-EngineLaws start queued_client (λ e. omega arith)

move_client-IsQuiet_example :
    (w' : World Machine) × (move_client ⦃host = machine⦄ queued_client 3 start ≡ (ok tt, w'))
    × IsQuiet ⦃host = machine⦄ start w'
    × IsReady ⦃host = machine⦄ w'
move_client-IsQuiet_example =
    move_client-IsQuiet ⦃host = machine⦄ machine-StackLaws machine-CallbackLaws machine-QuietLaws
      queued_client 3 (λ e. omega arith) (λ e. omega arith) machine-EngineLaws (λ e. omega arith)
      start start-IsReady (λ e. omega arith) (λ e. omega arith)
