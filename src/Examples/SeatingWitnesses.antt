-- ===== src/Examples/SeatingWitnesses.antt =====
-- The theorems on messages and on who sits where, applied to the small server.
use gmod_queue.Base.{
  ℕ, ◌+◌, ◌<◌, pos, ◌≡◌, ◌↔◌, refl, ap, some, drop, false, List, [], ◌∷◌, map, All, get_elem?,
  get_elem?-lt_length, arith,
}
use gmod_queue.Engine.Protocol.{max_players, clc_cmd_key_values}
use gmod_queue.Engine.Client.{Client}
use gmod_queue.Messages.{field}
use gmod_queue.Messages.Classes.{clc, ClcKind, declaration}
use gmod_queue.Messages.Casts.{key_values-cast}
use gmod_queue.World.State.{World}
use gmod_queue.World.Monad.{ok}
use gmod_queue.Move.Quiet.{objects-IsQuiet}
use gmod_queue.Spawn.{hook_spawn_player}
use gmod_queue.Seating.{Seat, view, queue_spawn}
use gmod_queue.Seating.Users.{IsAwaited, IsFair, replay}
use gmod_queue.Seating.Hall.{IsSameList, lua-IsSameHall, HallLaws, CalmHooks, IsOpen}
use gmod_queue.Wire.{write_to_buffer}
use gmod_queue.Seating.Delivery.{Delivery, FillLaws, IsTold, queued_user_is_told}
use gmod_queue.Examples.WireWitnesses.{bit_api, bit_laws, filled_info-Encodable}
use gmod_queue.Seating.Runs.{
  IsAt, slot_of, spawn_each, spawn_each-refines, spawn_each-IsFair, queued_user_is_seated,
}
use gmod_queue.Examples.Machine.{Machine, machine, blank}
use gmod_queue.Examples.Laws.{
  machine-StackLaws, machine-CallbackLaws, machine-EngineLaws, machine-QuietLaws,
}
use gmod_queue.Examples.Server.{
  start, client_of, get_elem?-count_from, queued_client, start-IsReady, start-IsLayout,
}

same_list : (w : World Machine) (c : ℕ → Client) → IsSameList w (record w { client = c })
same_list w c = record { server = refl; clients = refl }

pub machine-HallLaws : HallLaws machine
machine-HallLaws = record {
  inactivate_list = λ p w. record { server = refl; clients = refl };
  clear_list = λ p w. same_list w _;
  connect_list = λ p n u chan fake challenge w. same_list w _;
  set_name_list = λ p n w. same_list w _;
  fill_hall = λ p info w. lua-IsSameHall w w.lua w.notes;
  send_hall = λ p info reliable w. lua-IsSameHall w w.lua w.notes;
  reconnect_hall = λ p w. lua-IsSameHall w w.lua w.notes;
  spawn_hall = λ p w. lua-IsSameHall w w.lua w.notes;
  spawn_quiet = λ p w. objects-IsQuiet ⦃host = machine⦄ w w.client w.notes;
}

pub machine-CalmHooks : CalmHooks machine
machine-CalmHooks = record {
  changed_slot = λ w. lua-IsSameHall w _ w.notes;
  disconnecting = λ w. lua-IsSameHall w _ w.notes;
}

pub start-IsOpen : IsOpen ⦃host = machine⦄ start
start-IsOpen = record {
  layout = start-IsLayout;
  ready = start-IsReady;
  wired = λ i p late here taken e.
      let high : i < 129 = get_elem?-lt_length start.server_object.clients i p here in
      let at : p ≡ 1 + i = get_elem?-count_from 1 129 i p here in
      let last : p ≡ queued_client = omega (arith, at, high, late) in
      let wire : (client_of p).net_channel ≡ 700 = ap (λ x. (client_of x).net_channel) last in
      omega (arith, wire, e);
}

-- A player and the queued client spawn.
abbrev spawns : List (ℕ × ℕ)
spawns = (1, 2) ∷ (128, queued_client) ∷ []

spawns-IsAt : All (IsAt start) spawns
spawns-IsAt = (refl, (refl, tt))

spawns-IsAwaited : IsAwaited (map slot_of spawns) (view start)
unfolding IsAwaited queue_spawn
spawns-IsAwaited = ((pos 3, refl), ((pos 130, refl), tt))

key_values-cast_example :
    ((declaration (clc ClcKind.cmd_key_values)).number ≡ clc_cmd_key_values) ↔ (
      get_elem? (declaration (clc ClcKind.cmd_key_values)).members 0
      ≡ some (field "KeyValues *" "m_pKeyValues"))
key_values-cast_example = key_values-cast (clc ClcKind.cmd_key_values) refl

spawn_each-refines_example :
    (w' : World Machine) × (spawn_each ⦃host = machine⦄ spawns start ≡ (ok tt, w'))
    × IsOpen ⦃host = machine⦄ w'
    × (view w' ≡ replay (map slot_of spawns) (view start))
spawn_each-refines_example =
    spawn_each-refines ⦃host = machine⦄ machine-StackLaws machine-CallbackLaws machine-QuietLaws
      machine-EngineLaws machine-HallLaws machine-CalmHooks spawns start start-IsOpen spawns-IsAt
      spawns-IsAwaited

spawn_each-IsFair_example :
    (w' : World Machine) × (spawn_each ⦃host = machine⦄ spawns start ≡ (ok tt, w'))
    × IsFair (view start) (view w')
spawn_each-IsFair_example =
    spawn_each-IsFair ⦃host = machine⦄ machine-StackLaws machine-CallbackLaws machine-QuietLaws
      machine-EngineLaws machine-HallLaws machine-CalmHooks spawns start start-IsOpen spawns-IsAt
      spawns-IsAwaited

queued_user_is_seated_example :
    (w' : World Machine) × (hook_spawn_player ⦃host = machine⦄ queued_client start ≡ (ok tt, w'))
    × ((k : ℕ) × (k < max_players)
        × (view start k ≡ Seat.vacant)
        × (view w' k ≡ Seat.held (pos 130)))
    × (view w' 128 ≡ Seat.vacant)
queued_user_is_seated_example =
    queued_user_is_seated ⦃host = machine⦄ machine-StackLaws machine-CallbackLaws machine-QuietLaws
      machine-EngineLaws machine-HallLaws machine-CalmHooks start start-IsOpen 128 queued_client
      (pos 130) refl (omega arith) refl 5 (omega arith) refl

bit_api-Delivery : Delivery bit_api bit_laws
unfolding write_to_buffer
bit_api-Delivery = record {
  empty = [];
  deliver = λ b. (drop 1 b, false);
  nothing_written = refl;
  room = λ info able. refl;
  delivered = λ b. refl;
  intact = λ b. refl;
}

machine-FillLaws : FillLaws machine bit_api bit_laws
machine-FillLaws = record { limit = λ p w. omega arith; fits = λ p w. filled_info-Encodable }

queued_user_is_told_example :
    (w' : World Machine) × (hook_spawn_player ⦃host = machine⦄ queued_client start ≡ (ok tt, w'))
    × (k : ℕ) × (target : ℕ) × (k < max_players)
    × (get_elem? start.server_object.clients k ≡ some target)
    × (view start k ≡ Seat.vacant)
    × (view w' k ≡ Seat.held (pos 130))
    × IsTold ⦃host = machine⦄ bit_api bit_laws bit_api-Delivery blank k target w'
queued_user_is_told_example =
    queued_user_is_told ⦃host = machine⦄ machine-StackLaws machine-CallbackLaws machine-QuietLaws
      machine-EngineLaws machine-HallLaws machine-CalmHooks bit_api bit_laws bit_api-Delivery
      machine-FillLaws blank start start-IsOpen queued_client 128 (pos 130) refl (omega arith) refl
      5 (omega arith) refl
