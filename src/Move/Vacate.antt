-- ===== src/Move/Vacate.antt =====
-- The origin after the move: its slot is free again.
use gmod_queue.Base.{ℕ, ◌≡◌, refl, sym, ap, ◌∙◌, ◌≢◌, ==-ne, update_self, update-ne}
use gmod_queue.Engine.Protocol.{signonstate_none}
use gmod_queue.Engine.Client.{Client}
use gmod_queue.World.State.{World}
use gmod_queue.World.Host.{Host}
use gmod_queue.World.Monad.{ok, modify, >>=-ok, if_else}
use gmod_queue.World.Memory.{change_client, store_client}
use gmod_queue.Move.{nuke_origin}
use gmod_queue.Move.EngineLaws.{EngineLaws, IsSamePlace, IsSamePlace-trans}

-- The origin without its channel, which would otherwise be shut down with it.
abbrev pub unplugged : {L : Type 0} → ℕ → World L → World L
unplugged origin w = store_client origin (record (w.client origin) { net_channel = 0 }) w

-- After the origin was emptied.
pub record IsVacated {L : Type 0} (origin : ℕ) (w w' : World L) : Type 0 where
  pub free : (w'.client origin).signon_state ≡ signonstate_none
  pub place : IsSamePlace (w.client origin) (w'.client origin)
  pub others : (q : ℕ) → q ≢ origin → w'.client q ≡ w.client q

-- Emptying the origin returns. The engine empties it only after its channel was taken away; then
-- its slot is free, it stands where it stood, and no other client object has changed.
pub nuke_origin-IsVacated :
    {L : Type 0} ⦃host : Host L⦄ (laws : EngineLaws host) (w : World L) (origin : ℕ)
    → origin ≢ 0
    → (((unplugged origin w).client origin).net_channel ≡ 0)
      × (nuke_origin origin w
          ≡ (ok tt, host.clear origin (host.inactivate origin (unplugged origin w))))
      × IsVacated origin w (host.clear origin (host.inactivate origin (unplugged origin w)))
unfolding nuke_origin
nuke_origin-IsVacated ⦃host⦄ laws w origin real =
    let stripped : Client = record (w.client origin) { net_channel = 0 } in
    let here = update_self w.client origin stripped in
    (
      ap (λ c. c.net_channel) here,
      >>=-ok (change_client origin (λ c. record c { net_channel = 0 })) _
            (if_else _ _ w (==-ne origin 0 real))
          ∙ >>=-ok (modify (host.inactivate origin)) _ refl,
      record {
        free = laws.clear_frees origin _;
        place =
            IsSamePlace-trans
              (record {
                same_slot = ap (λ c. c.client_slot) here;
                same_entity = ap (λ c. c.entity_index) here;
                same_server = ap (λ c. c.server) here;
              })
              (IsSamePlace-trans (laws.inactivate_place origin _) (laws.clear_place origin _));
        others = λ q ne.
            laws.clear_others origin q _ ne
            ∙ laws.inactivate_others origin q _ ne
            ∙ update-ne w.client origin q stripped (λ e. ne (sym e));
      },
    )
