-- ===== src/Move/Connect.antt =====
-- The first part of `MoveCGameClientIntoCGameClient`: the target is emptied and connected as the
-- origin is.
use gmod_queue.Base.{ℕ, ◌≡◌, refl, ap, ◌∙◌, ◌≢◌, ◌∷◌}
use gmod_queue.Engine.Client.{Client}
use gmod_queue.World.State.{World, Note}
use gmod_queue.World.Host.{Host}
use gmod_queue.World.Monad.{ok, modify, note, >>=-ok}
use gmod_queue.World.Memory.{read_client, read_client-ok}
use gmod_queue.Move.{connect_target}
use gmod_queue.Move.EngineLaws.{EngineLaws, IsSamePlace, IsSamePlace-trans}

module _ {L : Type 0} ⦃host : Host L⦄ (origin target : ℕ) where
  open host use {inactivate, clear, connect, set_name}

  -- The states of `connect_target`.
  abbrev pub emptied : World L → World L
  emptied w = clear target (
      inactivate target (record w {
        notes =
            Note.reassigned (w.client origin).client_slot (w.client target).client_slot ∷ w.notes;
      }))

  abbrev pub joined : World L → World L
  joined w =
      let o : Client = w.client origin in
      connect target o.name o.user_id o.net_channel o.fake_player o.client_challenge w

  abbrev pub named : World L → World L
  named w = set_name target (w.client origin).name w

  abbrev pub connected : World L → World L
  connected w = named (joined (emptied w))

  pub connect_target_lem :
      (w : World L)
      → origin ≢ 0
      → target ≢ 0
      → connect_target origin target w ≡ (ok tt, connected w)
  unfolding connect_target
  connect_target_lem w real aim =
      let o : Client = (emptied w).client origin in
      >>=-ok (read_client origin) _ (read_client-ok w origin real)
      ∙ >>=-ok (read_client target) _ (read_client-ok w target aim)
      ∙ >>=-ok (note (Note.reassigned (w.client origin).client_slot (w.client target).client_slot))
          _ refl
      ∙ >>=-ok (modify (inactivate target)) _ refl
      ∙ >>=-ok (modify (clear target)) _ refl
      ∙ >>=-ok (read_client origin) _ (read_client-ok (emptied w) origin real)
      ∙ >>=-ok
          (modify (connect target o.name o.user_id o.net_channel o.fake_player o.client_challenge))
          _ refl
      ∙ >>=-ok (read_client origin) _ (read_client-ok (joined (emptied w)) origin real)

  -- A client object other than the target.
  module _ (laws : EngineLaws host) (q : ℕ) (apart : q ≢ target) (w : World L) where
    emptied_other : (emptied w).client q ≡ w.client q
    emptied_other = laws.clear_others target q _ apart ∙ laws.inactivate_others target q _ apart

    joined_other : (joined (emptied w)).client q ≡ w.client q
    joined_other = laws.connect_others target q _ _ _ _ _ (emptied w) apart ∙ emptied_other

    pub connected_other : (connected w).client q ≡ w.client q
    connected_other = laws.set_name_others target q _ (joined (emptied w)) apart ∙ joined_other

  -- What `Connect` gives the target of the origin's identity.
  pub record IsConnected (w v : World L) : Type 0 where
    pub place : IsSamePlace (w.client target) (v.client target)
    pub user_id : (v.client target).user_id ≡ (w.client origin).user_id
    pub net_channel : (v.client target).net_channel ≡ (w.client origin).net_channel
    pub fake_player : (v.client target).fake_player ≡ (w.client origin).fake_player
    pub challenge : (v.client target).client_challenge ≡ (w.client origin).client_challenge

  pub connected-IsConnected :
      EngineLaws host → origin ≢ target → (w : World L) → IsConnected w (connected w)
  connected-IsConnected laws apart w =
      let o : Client = (emptied w).client origin in
      let e = emptied_other laws origin apart w in
      let (p, u, n, f, c) =
        laws.connect_stores target o.name o.user_id o.net_channel o.fake_player o.client_challenge
          (emptied w) in
      let (p', u', n', f', c') =
        laws.set_name_stores target ((joined (emptied w)).client origin).name
          (joined (emptied w)) in
      record {
        place =
            IsSamePlace-trans
              (IsSamePlace-trans (laws.inactivate_place target _) (laws.clear_place target _))
              (IsSamePlace-trans p p');
        user_id = u' ∙ u ∙ ap (λ x. x.user_id) e;
        net_channel = n' ∙ n ∙ ap (λ x. x.net_channel) e;
        fake_player = f' ∙ f ∙ ap (λ x. x.fake_player) e;
        challenge = c' ∙ c ∙ ap (λ x. x.client_challenge) e;
      }
