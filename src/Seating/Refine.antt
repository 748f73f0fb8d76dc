-- ===== src/Seating/Refine.antt =====
-- One spawn: the detour of `SpawnPlayer` does what the abstract server promises.
use mathlib.Core.Path.{subst}
use gmod_queue.Base.{
  ℕ, pos, ◌≡◌, sym, ap, ◌∙◌, ◌≢◌, ◌≤◌, inl, inr, Bool, true, false, some, ◌∷◌, ltb, ltb_ℤ,
  get_elem?, arith,
}
use gmod_queue.Engine.Protocol.{max_players}
use gmod_queue.World.State.{World, Note}
use gmod_queue.World.Host.{Host}
use gmod_queue.World.Laws.{StackLaws}
use gmod_queue.World.Monad.{ok, note}
use gmod_queue.Hooks.Callback.{CallbackLaws, lua-IsReady}
use gmod_queue.Slots.Minimum.{IsFree}
use gmod_queue.Slots.Layout.{IsLayout, IsFull, IsFirstFree}
use gmod_queue.Move.EngineLaws.{EngineLaws}
use gmod_queue.Move.Quiet.{QuietLaws, IsQuiet, objects-IsQuiet}
use gmod_queue.Move.Announce.{IsAfterCall, informed}
use gmod_queue.Move.Total.{exchanged, move_client-outcome}
use gmod_queue.Spawn.{hook_spawn_player}
use gmod_queue.Spawn.Cases.{hook_spawn_player-cases}
use gmod_queue.Seating.{seat_at, view, reseat, queue_spawn}
use gmod_queue.Seating.FirstFree.{vacant_seat, first_vacant-IsFirstFree, first_vacant-IsFull}
use gmod_queue.Move.{move_client}
use gmod_queue.Seating.Users.{IsHeld}
use gmod_queue.Seating.Hall.{
  IsSameList, IsSameList-trans, IsSameHall, IsSameHall-trans, lua-IsSameHall, HallLaws, CalmHooks,
  IsWired, IsOpen, IsLayout-kept, view-kept, IsOpen-kept, IsWired-kept,
}
use gmod_queue.Seating.Exchange.{
  exchanged-IsExchanged, view-exchanged, IsWired-exchanged, slot-injective,
}

-- `u` is the state of a move from slot `j` to slot `i` before the message to the client is made: the
-- user is on the new slot, and the rest of the move returns.
pub record IsHandedOver {L : Type 0} ⦃host : Host L⦄ (w : World L) (client j i target : ℕ)
    (u : World L) : Type 0 where
  pub moved : move_client client target w ≡ (ok tt, host.reconnect target (informed target u))
  pub list : IsSameList w u
  pub layout : IsLayout u
  pub wired : IsWired u
  pub seen : view u ≡ reseat j i (view w)
  pub quiet : IsQuiet w (host.reconnect target (informed target u))

module _ {L : Type 0} ⦃host : Host L⦄ (stack : StackLaws host.lua_api)
    (callback : CallbackLaws host) (quiet : QuietLaws host) (laws : EngineLaws host)
    (hall : HallLaws host) (calm : CalmHooks host) where
  after_call-IsSameHall : (n u : World L) → IsAfterCall n u → IsSameHall n u
  after_call-IsSameHall n u (l, notes, inl e) =
      subst (IsSameHall n) (sym e) (lua-IsSameHall n l notes)
  after_call-IsSameHall n u (l, notes, inr e) =
      subst (IsSameHall n) (sym e)
        (IsSameHall-trans (lua-IsSameHall n l notes) (calm.changed_slot _))

  pub reconnected-IsSameHall :
      (target : ℕ) (u : World L) → IsSameHall u (host.reconnect target (informed target u))
  reconnected-IsSameHall target u =
      IsSameHall-trans (hall.fill_hall (u.client target).server host.blank_server_info u) (
        IsSameHall-trans (hall.send_hall target _ true _)
          (hall.reconnect_hall target (informed target u)))

  module _ (w : World L) (open_before : IsOpen w) (client j : ℕ)
      (here : get_elem? w.server_object.clients j ≡ some client) where
    -- What a spawn of the client at slot `j` comes to.
    abbrev pub IsServed : Type 0
    IsServed =
        (w' : World L) × (hook_spawn_player client w ≡ (ok tt, w'))
        × IsOpen w'
        × IsSameList w w'
        × (view w' ≡ queue_spawn j (view w))
        × IsQuiet w w'

    at : (w.client client).client_slot ≡ pos j
    at = (open_before.layout.placed j client here).1

    same_bound :
        (b : Bool)
        → ltb_ℤ (w.client client).client_slot (pos max_players) ≡ b
        → ltb j max_players ≡ b
    same_bound b e = ground (arith, at, e)

    served_near :
        ltb_ℤ (w.client client).client_slot (pos max_players) ≡ true
        → hook_spawn_player client w ≡ (ok tt, host.spawn_player client w)
        → IsServed
    unfolding queue_spawn
    served_near near ran =
        let same = hall.spawn_hall client w in
        (
          host.spawn_player client w,
          ran,
          IsOpen-kept same (hall.spawn_quiet client w).ready open_before,
          same.list,
          rw (same_bound true near) (view-kept same),
          hall.spawn_quiet client w,
        )

    served_full :
        ltb_ℤ (w.client client).client_slot (pos max_players) ≡ false
        → IsFull w
        → (n : Note) → hook_spawn_player client w ≡ note n w
        → IsServed
    unfolding queue_spawn
    served_full far full n ran =
        let same = lua-IsSameHall w w.lua (n ∷ w.notes) in
        (
          record w { notes = n ∷ w.notes },
          ran,
          IsOpen-kept same (lua-IsReady w w.lua (n ∷ w.notes)) open_before,
          same.list,
          rw (same_bound false far, first_vacant-IsFull w full) (view-kept same),
          objects-IsQuiet w w.client (n ∷ w.notes),
        )

    pub handed_over :
        ltb_ℤ (w.client client).client_slot (pos max_players) ≡ false
        → ¬ IsFree (w.client client)
        → (i target : ℕ) → IsFirstFree w i target
        → (u : World L) × IsHandedOver w client j i target u
    handed_over far taken i target f =
        let layout = open_before.layout in
        let late : max_players ≤ j = ground (arith, same_bound false far) in
        let real = (layout.placed j client here).0 in
        let aim = (layout.placed i target f.here).0 in
        let apart : client ≢ target = λ e.
          let same = slot-injective w layout j i client target here f.here e in
          omega (arith, same, late, f.playable) in
        let (u, moved, after, quiet_after) =
          move_client-outcome stack callback quiet client target real aim laws apart w
            open_before.ready (open_before.wired j client late here taken)
            (layout.homed i target f.here) in
        let ex = exchanged-IsExchanged laws hall w client target real aim apart in
        let n : World L = exchanged client target w in
        let rest = after_call-IsSameHall n u after in
        (
          u,
          record {
            moved = moved;
            list = IsSameList-trans ex.list rest.list;
            layout =
                IsLayout-kept rest.list (λ q. (rest.guests q).place)
                  (IsLayout-kept ex.list ex.places layout);
            wired = IsWired-kept rest (
                IsWired-exchanged w n client target j i layout ex here f.here f.playable
                  open_before.wired);
            seen = view-kept rest ∙ view-exchanged w n client target j i layout ex here f.here;
            quiet = quiet_after;
          },
        )

    served_moved :
        ltb_ℤ (w.client client).client_slot (pos max_players) ≡ false
        → ¬ IsFree (w.client client)
        → (i target : ℕ) → IsFirstFree w i target
        → hook_spawn_player client w ≡ move_client client target w
        → IsServed
    unfolding queue_spawn
    served_moved far taken i target f ran =
        let (u, over) = handed_over far taken i target f in
        let rest = reconnected-IsSameHall target u in
        (
          host.reconnect target (informed target u),
          ran ∙ over.moved,
          record {
            layout = IsLayout-kept rest.list (λ q. (rest.guests q).place) over.layout;
            ready = over.quiet.ready open_before.ready;
            wired = IsWired-kept rest over.wired;
          },
          IsSameList-trans over.list rest.list,
          rw (same_bound false far, first_vacant-IsFirstFree w i target f)
              (view-kept rest ∙ over.seen),
          over.quiet,
        )

    -- On an open server, where the hooks leave users on their slots, a spawn of a client that is signing
    -- on does to the slots and their users what the abstract server says, and the server stays open.
    pub spawn_refines : IsHeld (view w j) → IsServed
    spawn_refines (u, held) =
        let real = (open_before.layout.placed j client here).0 in
        let taken : ¬ IsFree (w.client client) = λ free.
          let vacant = ap (seat_at w.client) here ∙ vacant_seat (w.client client) free in cc in
        elim (hook_spawn_player-cases w open_before.layout client real) [
          | inl (near, ran) ↦ served_near near ran
          | inr (inl (far, full, ran)) ↦ served_full far full _ ran
          | inr (inr (far, (i, target, f, ran))) ↦ served_moved far taken i target f ran
        ]
