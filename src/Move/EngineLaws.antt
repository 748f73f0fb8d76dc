-- ===== src/Move/EngineLaws.antt =====
-- What the move relies on in the engine's client functions: each acts on the client that it is
-- called on, none moves a client to another slot, and `Connect` stores what it is given.
use gmod_queue.Base.{ℕ, ℤ, ◌≡◌, ◌∙◌, ◌≢◌, Bool, String}
use gmod_queue.Engine.Protocol.{signonstate_none}
use gmod_queue.Engine.Client.{Client}
use gmod_queue.World.State.{World}
use gmod_queue.World.Host.{Host}

-- The client stands at the same slot, entity and server.
pub record IsSamePlace (a b : Client) : Type 0 where
  pub same_slot : b.client_slot ≡ a.client_slot
  pub same_entity : b.entity_index ≡ a.entity_index
  pub same_server : b.server ≡ a.server

pub IsSamePlace-trans : {a b c : Client} → IsSamePlace a b → IsSamePlace b c → IsSamePlace a c
IsSamePlace-trans p q = record {
  same_slot = q.same_slot ∙ p.same_slot;
  same_entity = q.same_entity ∙ p.same_entity;
  same_server = q.same_server ∙ p.same_server;
}

module _ {L : Type 0} (host : Host L) where
  open host use {inactivate, clear, connect, set_name}

  pub record EngineLaws : Type 0 where
    pub inactivate_others : (p q : ℕ) (w : World L) → q ≢ p → (inactivate p w).client q ≡ w.client q
    pub clear_others : (p q : ℕ) (w : World L) → q ≢ p → (clear p w).client q ≡ w.client q
    pub connect_others :
        (p q : ℕ) (n : String) (u : ℤ) (chan : ℕ) (fake : Bool) (challenge : ℤ) (w : World L)
        → q ≢ p
        → (connect p n u chan fake challenge w).client q ≡ w.client q
    pub set_name_others :
        (p q : ℕ) (n : String) (w : World L) → q ≢ p → (set_name p n w).client q ≡ w.client q
    pub inactivate_place :
        (p : ℕ) (w : World L) → IsSamePlace (w.client p) ((inactivate p w).client p)
    pub clear_place : (p : ℕ) (w : World L) → IsSamePlace (w.client p) ((clear p w).client p)
    pub clear_frees : (p : ℕ) (w : World L) → ((clear p w).client p).signon_state ≡ signonstate_none
    pub connect_stores :
        (p : ℕ) (n : String) (u : ℤ) (chan : ℕ) (fake : Bool) (challenge : ℤ) (w : World L)
        → let c = (connect p n u chan fake challenge w).client p in
          IsSamePlace (w.client p) c
          × (c.user_id ≡ u)
          × (c.net_channel ≡ chan)
          × (c.fake_player ≡ fake)
          × (c.client_challenge ≡ challenge)
    pub set_name_stores :
        (p : ℕ) (n : String) (w : World L)
        → let c = (set_name p n w).client p in
          IsSamePlace (w.client p) c
          × (c.user_id ≡ (w.client p).user_id)
          × (c.net_channel ≡ (w.client p).net_channel)
          × (c.fake_player ≡ (w.client p).fake_player)
          × (c.client_challenge ≡ (w.client p).client_challenge)
