-- ===== src/Spawn/Cases.antt =====
-- The three ways in which a spawn goes, on a server whose clients lie where the engine puts them.
use gmod_queue.Base.{
  ℕ, suc, ◌<◌, pos, ◌≡◌, ap, ◌∙◌, ◌≢◌, ◌⊎◌, inl, inr, Bool-cases, true, false, not, eqb_ℤ,
  eqb_ℤ-refl, ltb_ℤ, arith, get_elem?, get_elem?-lt_length, length, some,
}
use gmod_queue.Engine.Protocol.{max_players, signonstate_none}
use gmod_queue.World.State.{World, Note}
use gmod_queue.World.Host.{Host}
use gmod_queue.World.Monad.{ok, note, >>=-ok, if_then, if_else}
use gmod_queue.World.Memory.{read_client, read_client-ok}
use gmod_queue.Util.{get_client_by_index}
use gmod_queue.Slots.{find_free_client_slot}
use gmod_queue.Slots.Layout.{IsLayout, IsFull, IsFirstFree, find_free_client_slot-first}
use gmod_queue.Move.{move_client}
use gmod_queue.Spawn.{spawn_at, spawn_queued, hook_spawn_player}

-- In that layout the client list is read at a valid index.
get_client_by_index_inside :
    {L : Type 0} (w : World L)
    → w.server ≢ 0
    → (i p : ℕ) → get_elem? w.server_object.clients i ≡ some p
    → get_client_by_index (pos i) w ≡ (ok p, w)
unfolding get_client_by_index
get_client_by_index_inside w known i p here =
    let inside : i < length w.server_object.clients = get_elem?-lt_length _ i p here in ground arith

-- What the detour does: the engine's own spawn, a refusal that only prints, or a move.
abbrev pub SpawnOutcome : {L : Type 0} ⦃host : Host L⦄ → World L → ℕ → Type 0
SpawnOutcome ⦃host = host⦄ w client =
    let c = w.client client in
    ((ltb_ℤ c.client_slot (pos max_players) ≡ true)
      × (hook_spawn_player client w ≡ (ok tt, host.spawn_player client w)))
    ⊎ ((ltb_ℤ c.client_slot (pos max_players) ≡ false)
        × IsFull w
        × (hook_spawn_player client w
            ≡ note (Note.no_free_slot c.client_slot c.user_id (pos 255)) w))
    ⊎ ((ltb_ℤ c.client_slot (pos max_players) ≡ false)
        × ((i : ℕ) × (p : ℕ) × IsFirstFree w i p
            × (hook_spawn_player client w ≡ move_client client p w)))

module _ {L : Type 0} ⦃host : Host L⦄ (w : World L) (layout : IsLayout w) (client : ℕ)
    (real : client ≢ 0) where
  -- The client object at a free slot is found again by its entity index.
  spawn_at_free :
      (i p : ℕ) → IsFirstFree w i p → spawn_at client (pos (suc i)) w ≡ move_client client p w
  unfolding spawn_at
  spawn_at_free i p f =
      >>=-ok (get_client_by_index (pos i)) _ (get_client_by_index_inside w layout.known i p f.here)
      ∙ (>>=-ok (read_client p) _ (read_client-ok w p (layout.placed i p f.here).0)
          ∙ (>>=-ok (read_client client) _ (read_client-ok w client real)
              ∙ if_else _ _ w (
                  ap not
                    (ap (λ s. eqb_ℤ s signonstate_none) f.free ∙ eqb_ℤ-refl signonstate_none))))

  queued :
      ltb_ℤ (w.client client).client_slot (pos max_players) ≡ false
      → hook_spawn_player client w ≡ spawn_queued client w
  unfolding hook_spawn_player
  queued far = >>=-ok (read_client client) _ (read_client-ok w client real) ∙ if_else _ _ w far

  refused :
      find_free_client_slot w ≡ (ok (pos 255), w)
      → spawn_queued client w
        ≡ note
            (Note.no_free_slot (w.client client).client_slot (w.client client).user_id (pos 255))
            w
  unfolding spawn_queued
  refused found =
      >>=-ok find_free_client_slot _ found
      ∙ >>=-ok (read_client client) _ (read_client-ok w client real)

  moved :
      (i p : ℕ)
      → find_free_client_slot w ≡ (ok (pos (suc i)), w)
      → IsFirstFree w i p
      → spawn_queued client w ≡ move_client client p w
  unfolding spawn_queued
  moved i p found f =
      let low : i < max_players = f.playable in
      >>=-ok find_free_client_slot _ found
      ∙ (>>=-ok (read_client client) _ (read_client-ok w client real)
          ∙ (if_else {b = ltb_ℤ (pos max_players) (pos (suc i))} _ _ w (ground arith)
              ∙ spawn_at_free i p f))

  spawned :
      ltb_ℤ (w.client client).client_slot (pos max_players) ≡ true
      → hook_spawn_player client w ≡ (ok tt, host.spawn_player client w)
  unfolding hook_spawn_player
  spawned near = >>=-ok (read_client client) _ (read_client-ok w client real) ∙ if_then _ _ w near

  -- On a server in the engine's layout, the detour of `SpawnPlayer` spawns a client below slot 128
  -- by the engine's function. A client at a later slot is moved to the first slot below 128 that
  -- is free; if none is, the detour prints a warning and changes nothing else. The branch for a
  -- client collision is never taken.
  pub hook_spawn_player-cases : SpawnOutcome w client
  hook_spawn_player-cases =
      elim (Bool-cases (ltb_ℤ (w.client client).client_slot (pos max_players))) [
        | inl near ↦ inl (near, spawned near)
        | inr far ↦
            let (r, found, answer) = find_free_client_slot-first w layout in
            elim answer [
              | inl (none_free, full) ↦
                  inr
                    (inl (far, full, queued far ∙ refused (found ∙ ap (λ x. (ok x, w)) none_free)))
              | inr (i, p, at, f) ↦
                  inr (
                    inr (far, (i, p, f, queued far ∙ moved i p (found ∙ ap (λ x. (ok x, w)) at) f)))
            ]
      ]
