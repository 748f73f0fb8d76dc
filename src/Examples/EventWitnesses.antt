-- ===== src/Examples/EventWitnesses.antt =====
-- The plugin is told that a player of the small server leaves, who does, and the queued client spawns.
use mathlib.Core.Path.{subst}
use gmod_queue.Base.{
  ℕ, ◌<◌, ℤ, pos, ◌≡◌, refl, sym, ap, ◌∙◌, ◌≢◌, some, List, [], ◌∷◌, All, get_elem?, arith,
}
use gmod_queue.Engine.Protocol.{max_players}
use gmod_queue.World.State.{World}
use gmod_queue.World.Monad.{ok}
use gmod_queue.World.Memory.{store_client}
use gmod_queue.Hooks.{on_client_disconnect}
use gmod_queue.Spawn.{hook_spawn_player}
use gmod_queue.Seating.{Seat, seat_at, view}
use gmod_queue.Seating.Users.{IsDistinct}
use gmod_queue.Seating.Hall.{
  IsOpen, IsSameHall, view-kept, IsSameHall-trans, lua-IsSameHall, IsOpen-kept,
}
use gmod_queue.Seating.Departure.{on_client_disconnect-IsOpen, untouched-IsSameHall}
use gmod_queue.Seating.Runs.{queued_user_is_seated}
use gmod_queue.Calls.{LuaCall}
use gmod_queue.Examples.CallWitnesses.{
  machine-LookupLaws, machine-OrderLaws, asks, asking, asking-InOrder, asking_handle, asked,
  asked-InOrder, asked-IsUntouched,
}
use gmod_queue.Seating.Visit.{set_seat, visited-view, visited-IsOpen}
use gmod_queue.Seating.Events.{
  Event, look, looked, computed, leave, spawn, apply_each, left, spawned, Steps, stop, more,
}
use gmod_queue.Seating.Traces.{Steps-refine}
use gmod_queue.Examples.Machine.{Machine, machine, free_slot}
use gmod_queue.Examples.Laws.{
  machine-StackLaws, machine-ReferenceLaws, machine-CallbackLaws, machine-EngineLaws,
  machine-QuietLaws,
}
use gmod_queue.Examples.Server.{start, queued_client}
use gmod_queue.Examples.SeatingWitnesses.{machine-HallLaws, machine-CalmHooks, start-IsOpen}

-- Lua code has called `GetTable` of client 1.
asked-IsSameHall : IsSameHall start asked
asked-IsSameHall =
    IsSameHall-trans (lua-IsSameHall start asks start.notes)
      (untouched-IsSameHall asking asked asked-IsUntouched)

asked-IsOpen : IsOpen ⦃host = machine⦄ asked
asked-IsOpen = IsOpen-kept ⦃host = machine⦄ asked-IsSameHall (λ _. asked-InOrder.ready) start-IsOpen

asked_player : get_elem? asked.server_object.clients 1 ≡ some 2
asked_player = ap (λ l. get_elem? l 1) asked-IsSameHall.list.clients

-- The plugin was told that the player at slot 1 leaves.
abbrev told : World Machine
told = (on_client_disconnect ⦃host = machine⦄ 2 asked).1

told-outcome :
    (on_client_disconnect ⦃host = machine⦄ 2 asked ≡ (ok tt, told))
    × IsSameHall start told
    × IsOpen ⦃host = machine⦄ told
told-outcome =
    let (v, ran, same, open_then) =
      on_client_disconnect-IsOpen ⦃host = machine⦄ machine-StackLaws machine-ReferenceLaws
        machine-CallbackLaws machine-CalmHooks asked 2 1 asked-IsOpen asked-InOrder.up
        asked-InOrder.thread asked_player in
    let reached : v ≡ told = sym (ap (λ x. x.1) ran) in
    (
      ran ∙ ap (λ w. (ok tt, w)) reached,
      IsSameHall-trans asked-IsSameHall (subst (IsSameHall asked) reached same),
      subst (IsOpen ⦃host = machine⦄) reached open_then,
    )

told_clients : told.server_object.clients ≡ start.server_object.clients
told_clients = told-outcome.1.list.clients

-- The player at slot 1 has left.
abbrev fewer : World Machine
fewer = store_client 2 (free_slot (told.client 2)) told

told_at : get_elem? told.server_object.clients 1 ≡ some 2
told_at = ap (λ l. get_elem? l 1) told_clients

fewer-IsOpen : IsOpen ⦃host = machine⦄ fewer
fewer-IsOpen =
    visited-IsOpen told 1 2 (free_slot (told.client 2)) told.lua told.channel told.notes told_at
      (record { same_slot = refl; same_entity = refl; same_server = refl }) ⦃host = machine⦄
      told-outcome.2 (λ late _. absurd (omega (arith, late)))

fewer-view : view fewer ≡ set_seat 1 Seat.vacant (view told)
fewer-view =
    visited-view told 1 2 (free_slot (told.client 2)) told.lua told.channel told.notes told_at
      (record { same_slot = refl; same_entity = refl; same_server = refl }) ⦃host = machine⦄
      told-outcome.2

fewer_vacant : view fewer 1 ≡ Seat.vacant
fewer_vacant = ap (λ l. seat_at fewer.client (get_elem? l 1)) told_clients

fewer_queued : get_elem? fewer.server_object.clients 128 ≡ some queued_client
fewer_queued = ap (λ l. get_elem? l 128) told_clients

fewer_held : view fewer 128 ≡ Seat.held (pos 130)
fewer_held = ap (λ seats. seats 128) fewer-view ∙ ap (λ seats. seats 128) (view-kept told-outcome.1)

abbrev later : World Machine
later = (hook_spawn_player ⦃host = machine⦄ queued_client fewer).1

spawn_returns : hook_spawn_player ⦃host = machine⦄ queued_client fewer ≡ (ok tt, later)
spawn_returns =
    let (w', ran, _, _) =
      queued_user_is_seated ⦃host = machine⦄ machine-StackLaws machine-CallbackLaws
        machine-QuietLaws machine-EngineLaws machine-HallLaws machine-CalmHooks fewer fewer-IsOpen
        128 queued_client (pos 130) fewer_queued (omega arith) fewer_held 1 (omega arith)
        fewer_vacant in
    ran ∙ ap (λ w. (ok tt, w)) (sym (ap (λ x. x.1) ran))

abbrev happened : List Event
happened = look ∷ look ∷ leave 1 ∷ spawn 128 ∷ []

later-Steps : Steps ⦃host = machine⦄ start happened later
later-Steps = more (computed asks refl) (
    more (looked LuaCall.get_table tt asking-InOrder asking_handle refl) (
      more
        (left (free_slot (told.client 2)) told.lua told.channel told.notes asked_player
          asked-InOrder.up asked-InOrder.thread told-outcome.0
          (record { same_slot = refl; same_entity = refl; same_server = refl }) refl refl)
        (more (spawned fewer_queued (pos 130, fewer_held) spawn_returns) stop)))

Steps-refine_example :
    IsOpen ⦃host = machine⦄ later
    × (view later ≡ apply_each happened (view start))
    × (IsDistinct (view start) → IsDistinct (view later))
    × ((i : ℕ) (u : ℤ)
        → i < max_players
        → All (λ e. e ≢ leave i) happened
        → view start i ≡ Seat.held u
        → view later i ≡ Seat.held u)
Steps-refine_example =
    Steps-refine ⦃host = machine⦄ machine-StackLaws machine-ReferenceLaws machine-LookupLaws
      machine-CallbackLaws machine-OrderLaws machine-QuietLaws machine-EngineLaws machine-HallLaws
      machine-CalmHooks start happened later later-Steps start-IsOpen
