-- ===== src/Move/Transfer.antt =====
-- What the target holds once `MoveCGameClientIntoCGameClient` has copied everything.
use mathlib.Core.Path.{subst}
use gmod_queue.Base.{
  ℕ, ◌≡◌, sym, ap, ◌∙◌, ◌≢◌, ◌⊎◌, inl, inr, ◌==◌, Bool-cases, ==_iff, ==→ne, ==-ne, All, update,
  update_self, update-ne,
}
use gmod_queue.World.State.{World}
use gmod_queue.World.Host.{Host}
use gmod_queue.World.Monad.{ok, err, fault, >>=-ok, if_else}
use gmod_queue.World.Memory.{
  read_client, read_client-ok, change_client, change_channel, store_client,
}
use gmod_queue.Move.{connect_target, adopt_session, transfer, adopt, redirect_channel}
use gmod_queue.Move.Channel.{IsRedirected, redirect-All}
use gmod_queue.Move.Connect.{connected, connected_other, connect_target_lem, connected-IsConnected}
use gmod_queue.Move.EngineLaws.{EngineLaws, IsSamePlace, IsSamePlace-trans}

module _ {L : Type 0} ⦃host : Host L⦄ (origin target : ℕ) where
  abbrev pub adopted : World L → World L
  adopted v = store_client target (adopt (v.client origin) (v.client target)) v

  adopted_target :
      (v : World L) → (adopted v).client target ≡ adopt (v.client origin) (v.client target)
  adopted_target v = update_self v.client target _

  adopted_channel :
      (v : World L) → ((adopted v).client target).net_channel ≡ (v.client target).net_channel
  adopted_channel v = ap (λ c. c.net_channel) (adopted_target v)

  adopt_session_start :
      (v : World L)
      → origin ≢ 0
      → target ≢ 0
      → adopt_session origin target v
        ≡ change_channel
            ((adopted v).client target).net_channel
            (redirect_channel target)
            (adopted v)
  unfolding adopt_session
  adopt_session_start v real aim =
      >>=-ok (read_client origin) _ (read_client-ok v origin real)
      ∙ >>=-ok (change_client target (adopt (v.client origin))) _
          (if_else _ _ v (==-ne target 0 aim))
      ∙ >>=-ok (read_client target) _ (read_client-ok (adopted v) target aim)

  transfer_lem :
      (w : World L)
      → origin ≢ 0
      → target ≢ 0
      → transfer origin target w
        ≡ change_channel
            ((adopted (connected origin target w)).client target).net_channel
            (redirect_channel target)
            (adopted (connected origin target w))
  unfolding transfer
  transfer_lem w real aim =
      >>=-ok (connect_target origin target) _ (connect_target_lem origin target w real aim)
      ∙ adopt_session_start (connected origin target w) real aim

-- The channel at `chan` now goes to the target.
abbrev pub redirected : {L : Type 0} → ℕ → ℕ → World L → World L
redirected target chan v = record v {
  channel = update v.channel chan (redirect_channel target (v.channel chan));
}

-- What the move hands over, and what it leaves in place.
pub record IsTransferred {L : Type 0} (origin target : ℕ) (w w' : World L) : Type 0 where
  pub place : IsSamePlace (w.client target) (w'.client target)
  pub user_id : (w'.client target).user_id ≡ (w.client origin).user_id
  pub net_channel : (w'.client target).net_channel ≡ (w.client origin).net_channel
  pub fake_player : (w'.client target).fake_player ≡ (w.client origin).fake_player
  pub challenge : (w'.client target).client_challenge ≡ (w.client origin).client_challenge
  pub signon_state : (w'.client target).signon_state ≡ (w.client origin).signon_state
  pub session : (w'.client target).session ≡ (w.client origin).session
  pub origin_kept : w'.client origin ≡ w.client origin
  pub handler : (w'.channel (w.client origin).net_channel).message_handler ≡ target
  pub messages : All (IsRedirected target) (w'.channel (w.client origin).net_channel).net_messages

module _ {L : Type 0} ⦃host : Host L⦄ (laws : EngineLaws host) (w : World L) (origin target : ℕ)
    (real : origin ≢ 0) (aim : target ≢ 0) (apart : origin ≢ target) where
  abbrev pub done : World L
  done = adopted origin target (connected origin target w)

  same_channel : (done.client target).net_channel ≡ (w.client origin).net_channel
  same_channel =
      adopted_channel origin target (connected origin target w)
      ∙ (connected-IsConnected origin target laws apart w).net_channel

  pub transfer_ran :
      (w.client origin).net_channel ≢ 0
      → transfer origin target w ≡ (ok tt, redirected target (w.client origin).net_channel done)
  transfer_ran wired =
      transfer_lem origin target w real aim
      ∙ ap (λ k. change_channel k (redirect_channel target) done) same_channel
      ∙ if_else _ _ done (==-ne (w.client origin).net_channel 0 wired)

  -- The state after the copy.
  pub copied-IsTransferred :
      IsTransferred origin target w (redirected target (w.client origin).net_channel done)
  copied-IsTransferred =
      let chan : ℕ = (w.client origin).net_channel in
      let v : World L = connected origin target w in
      let c = connected-IsConnected origin target laws apart w in
      let t = adopted_target origin target v in
      let o = connected_other origin target laws origin apart w in
      let moved = update_self done.channel chan (redirect_channel target (done.channel chan)) in
      record {
        place = IsSamePlace-trans c.place (record {
          same_slot = ap (λ x. x.client_slot) t;
          same_entity = ap (λ x. x.entity_index) t;
          same_server = ap (λ x. x.server) t;
        });
        user_id = ap (λ x. x.user_id) t ∙ c.user_id;
        net_channel = same_channel;
        fake_player = ap (λ x. x.fake_player) t ∙ c.fake_player;
        challenge = ap (λ x. x.client_challenge) t ∙ c.challenge;
        signon_state = ap (λ x. x.signon_state) t ∙ ap (λ x. x.signon_state) o;
        session = ap (λ x. x.session) t ∙ ap (λ x. x.session) o;
        origin_kept = update-ne v.client target origin _ (λ e. apart (sym e)) ∙ o;
        handler = ap (λ x. x.message_handler) moved;
        messages =
            subst (λ x. All (IsRedirected target) x.net_messages) (sym moved)
              (redirect-All target aim (done.channel chan).net_messages);
      }

  transfer_faults : (w.client origin).net_channel ≡ 0 → (transfer origin target w).0 ≡ err fault
  transfer_faults bot =
      ap (λ x. x.0)
        (transfer_lem origin target w real aim
          ∙ ap (λ k. change_channel k (redirect_channel target) done) (same_channel ∙ bot))

  -- Between two client objects, the copy returns if the origin has a net channel, and faults if it
  -- has none, as the engine gives a bot. When it returns, the target has the origin's user id,
  -- channel, challenge, sign-on state and session data, at its own slot, entity and server; the
  -- origin is as it was; and the channel goes to the target. So does each of its messages that a game
  -- client processes, apart from the key-values command, which holds no key values, and the message
  -- with no handler.
  pub transfer-outcome :
      (((w.client origin).net_channel ≢ 0)
        × ((w' : World L) × (transfer origin target w ≡ (ok tt, w'))
            × IsTransferred origin target w w'))
      ⊎ (((w.client origin).net_channel ≡ 0) × ((transfer origin target w).0 ≡ err fault))
  transfer-outcome = elim (Bool-cases ((w.client origin).net_channel == 0)) [
    | inl e ↦
        let bot : (w.client origin).net_channel ≡ 0 = (==_iff _ _).0 e in
        inr (bot, transfer_faults bot)
    | inr e ↦
        let wired : (w.client origin).net_channel ≢ 0 = ==→ne _ _ e in
        inl (wired, (_, transfer_ran wired, copied-IsTransferred))
  ]
