-- ===== src/Move/Total.antt =====
-- The whole move returns, and leaves the Lua stack and the plugin in order.
use gmod_queue.Base.{ℕ, ◌≡◌, sym, ap, ◌∙◌, ◌∷◌, ◌≢◌, inl, inr, true}
use gmod_queue.World.State.{World, Note}
use gmod_queue.World.Host.{Host}
use gmod_queue.World.Laws.{StackLaws}
use gmod_queue.World.Monad.{ok, >>=-ok}
use gmod_queue.Hooks.Callback.{IsReady, CallbackLaws}
use gmod_queue.Move.{transfer, nuke_origin, announce, send_server_info, move_client}
use gmod_queue.Move.EngineLaws.{EngineLaws}
use gmod_queue.Move.Connect.{emptied, joined, connected}
use gmod_queue.Move.Transfer.{transfer_ran, redirected, adopted, copied-IsTransferred}
use gmod_queue.Move.Vacate.{nuke_origin-IsVacated, unplugged}
use gmod_queue.Move.Quiet.{IsQuiet, IsQuiet-trans, QuietLaws, objects-IsQuiet, channels-IsQuiet}
use gmod_queue.Move.Announce.{announce-outcome, send_server_info-outcome, informed, IsAfterCall}

-- The origin's place in the game is the target's: the client was copied, and the origin emptied.
-- The hook and the message to the client are still to come.
abbrev pub exchanged : {L : Type 0} ⦃host : Host L⦄ → ℕ → ℕ → World L → World L
exchanged ⦃host = host⦄ origin target w = host.clear origin (
    host.inactivate origin (
      unplugged origin (
        redirected target (w.client origin).net_channel
          (adopted origin target (connected origin target w)))))

module _ {L : Type 0} ⦃host : Host L⦄ (stack : StackLaws host.lua_api)
    (callback : CallbackLaws host) (quiet : QuietLaws host) where
  open host use {push_number, call_function_protected, top}

  -- `Inactivate`, `Clear`, `Connect` and `SetName` in turn.
  connected-IsQuiet : (w : World L) (origin target : ℕ) → IsQuiet w (connected origin target w)
  connected-IsQuiet w origin target =
      let v : World L = record w {
        notes =
            Note.reassigned (w.client origin).client_slot (w.client target).client_slot ∷ w.notes;
      } in
      IsQuiet-trans (objects-IsQuiet w w.client v.notes) (
        IsQuiet-trans (quiet.inactivate_quiet target v) (
          IsQuiet-trans (quiet.clear_quiet target (host.inactivate target v)) (
            IsQuiet-trans (quiet.connect_quiet target _ _ _ _ _ (emptied origin target w))
              (quiet.set_name_quiet target _ (joined origin target (emptied origin target w))))))

  module _ (origin target : ℕ) (real : origin ≢ 0) (aim : target ≢ 0) where
    module _ (laws : EngineLaws host) (apart : origin ≢ target) (w : World L) (ready : IsReady w)
        (wired : (w.client origin).net_channel ≢ 0) (homed : (w.client target).server ≢ 0) where
      -- The target has its server after the exchange, and after whatever the hook did.
      exchanged_server :
          ((exchanged origin target w).client target).server ≡ (w.client target).server
      exchanged_server =
          let t : World L =
            redirected target (w.client origin).net_channel
              (adopted origin target (connected origin target w)) in
          let (_, _, vacated) = nuke_origin-IsVacated laws t origin real in
          ap (λ c. c.server) (vacated.others target (λ e. apart (sym e)))
          ∙ (copied-IsTransferred laws w origin target real aim apart).place.same_server

      after_call_server :
          (u : World L)
          → IsAfterCall (exchanged origin target w) u
          → (u.client target).server ≡ (w.client target).server
      after_call_server u (l, notes, inl e) =
          ap (λ v. (v.client target).server) e ∙ exchanged_server
      after_call_server u (l, notes, inr e) =
          ap (λ v. (v.client target).server) e
          ∙ (callback.call_keeps_place 3 0 true _ target).same_server
          ∙ exchanged_server

      exchanged-IsQuiet : IsQuiet w (exchanged origin target w)
      exchanged-IsQuiet =
          let c : World L = connected origin target w in
          let a : World L = adopted origin target c in
          let t : World L = redirected target (w.client origin).net_channel a in
          let s : World L = unplugged origin t in
          IsQuiet-trans (connected-IsQuiet w origin target) (
            IsQuiet-trans (objects-IsQuiet c a.client c.notes) (
              IsQuiet-trans (channels-IsQuiet a t.channel) (
                IsQuiet-trans (objects-IsQuiet t s.client t.notes) (
                  IsQuiet-trans (quiet.inactivate_quiet origin s)
                    (quiet.clear_quiet origin (host.inactivate origin s))))))

      -- Where the move ends: the exchange, a state after the hook, the message, `Reconnect`.
      pub move_client-outcome :
          (u : World L) × (move_client origin target w
            ≡ (ok tt, host.reconnect target (informed target u)))
          × IsAfterCall (exchanged origin target w) u
          × IsQuiet w (host.reconnect target (informed target u))
      unfolding move_client
      move_client-outcome =
          let t : World L =
            redirected target (w.client origin).net_channel
              (adopted origin target (connected origin target w)) in
          let (_, emptied_ran, _) = nuke_origin-IsVacated laws t origin real in
          let (b, u, told, calm, after) =
            announce-outcome stack callback quiet origin target real aim (exchanged origin target w)
              (exchanged-IsQuiet.ready ready) in
          let (sent, still) =
            send_server_info-outcome stack callback quiet origin target real aim u
              (λ null. homed (sym (after_call_server u after) ∙ null)) in
          (
            u,
            >>=-ok (transfer origin target) _
                  (transfer_ran laws w origin target real aim apart wired)
                ∙ (>>=-ok (nuke_origin origin) _ emptied_ran
                    ∙ (>>=-ok (announce origin target) _ told
                        ∙ >>=-ok (send_server_info target) _ sent)),
            after,
            IsQuiet-trans exchanged-IsQuiet (
                IsQuiet-trans calm
                  (IsQuiet-trans still (quiet.reconnect_quiet target (informed target u)))),
          )

    -- With the plugin ready, moving a client that has a net channel into another object that has a
    -- server returns, whatever the hook does: no step of it reads through NULL. The Lua stack is as high as before
    -- and the plugin is ready.
    pub move_client-IsQuiet :
        EngineLaws host
        → origin ≢ target
        → (w : World L) → IsReady w
        → (w.client origin).net_channel ≢ 0
        → (w.client target).server ≢ 0
        → (w' : World L) × (move_client origin target w ≡ (ok tt, w')) × IsQuiet w w' × IsReady w'
    move_client-IsQuiet laws apart w ready wired homed =
        let (u, ran, _, calm) = move_client-outcome laws apart w ready wired homed in
        (_, ran, calm, calm.ready ready)
