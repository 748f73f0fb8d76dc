-- ===== src/Spawn.antt =====
-- `hook_CGameClient_SpawnPlayer` (source/queue.cpp): who spawns at once, who is moved to a player
-- slot first, and who is refused.
pub mod Cases
use gmod_queue.Base.{ℕ, ℤ, pos, ⊤, not, eqb_ℤ, ltb_ℤ, pred_ℤ, if◌then◌else◌}
use gmod_queue.Engine.Protocol.{max_players, signonstate_none}
use gmod_queue.World.State.{World, Note}
use gmod_queue.World.Host.{Host}
use gmod_queue.World.Monad.{Action, modify, note, ◌>>=◌, ◌>>◌}
use gmod_queue.World.Memory.{read_client}
use gmod_queue.Util.{get_client_by_index}
use gmod_queue.Slots.{find_free_client_slot}
use gmod_queue.Move.{move_client}

module _ {L : Type 0} ⦃host : Host L⦄ where
  -- The part after a slot was found, at entity `next`.
  unfoldable pub spawn_at : ℕ → ℤ → Action L ⊤
  spawn_at client next = do
    p ← get_client_by_index (pred_ℤ next)
    t ← read_client p
    c ← read_client client
    if not (eqb_ℤ t.signon_state signonstate_none)
        then note (Note.client_collision t.client_slot c.client_slot)
        else move_client client p

  -- The part for a client on a slot that cannot hold a player.
  unfoldable pub spawn_queued : ℕ → Action L ⊤
  spawn_queued client = do
    next ← find_free_client_slot
    c ← read_client client
    if ltb_ℤ (pos max_players) next
        then note (Note.no_free_slot c.client_slot c.user_id next)
        else spawn_at client next

  -- `hook_CGameClient_SpawnPlayer`
  unfoldable pub hook_spawn_player : ℕ → Action L ⊤
  hook_spawn_player client = do
    c ← read_client client
    if ltb_ℤ c.client_slot (pos max_players)
        then modify (host.spawn_player client)
        else spawn_queued client
