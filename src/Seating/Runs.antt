-- ===== src/Seating/Runs.antt =====
-- Sequences of spawns: the detour, called for one client after another, does what the abstract server
-- promises, and every queued user gets a slot while there is one.
use mathlib.Core.Path.{subst}
use gmod_queue.Base.{
  ℕ, ℤ, ◌≡◌, refl, sym, ap, ◌∙◌, ◌≤◌, ◌<◌, some, List, [], ◌∷◌, map, ⊤, All, get_elem?,
}
use gmod_queue.Engine.Protocol.{max_players}
use gmod_queue.World.State.{World}
use gmod_queue.World.Host.{Host}
use gmod_queue.World.Laws.{StackLaws}
use gmod_queue.World.Monad.{Action, ok, pure, >>=-ok, ◌>>◌}
use gmod_queue.Hooks.Callback.{CallbackLaws}
use gmod_queue.Move.EngineLaws.{EngineLaws}
use gmod_queue.Move.Quiet.{QuietLaws}
use gmod_queue.Spawn.{hook_spawn_player}
use gmod_queue.Seating.{Seat, view}
use gmod_queue.Seating.Users.{IsFair, IsAwaited, replay, replay-IsFair, queue_spawn_seats}
use gmod_queue.Seating.Hall.{IsSameList, HallLaws, CalmHooks, IsOpen}
use gmod_queue.Seating.Refine.{spawn_refines}

-- The client object at an address stands at a slot.
abbrev pub IsAt : {L : Type 0} → World L → ℕ × ℕ → Type 0
IsAt w (j, client) = get_elem? w.server_object.clients j ≡ some client

abbrev pub slot_of : ℕ × ℕ → ℕ
slot_of (j, client) = j

module _ {L : Type 0} ⦃host : Host L⦄ where
  -- `SpawnPlayer` for one client after another, each given with its slot.
  unfoldable pub spawn_each : List (ℕ × ℕ) → Action L ⊤
  spawn_each [] = pure tt
  spawn_each ((j, client) ∷ rest) = do hook_spawn_player client; spawn_each rest

  listed-kept :
      {w w' : World L} → IsSameList w w' → (cs : List (ℕ × ℕ)) → All (IsAt w) cs → All (IsAt w') cs
  listed-kept same [] listed = tt
  listed-kept same ((j, client) ∷ rest) (here, listed) =
      (ap (λ l. get_elem? l j) same.clients ∙ here, listed-kept same rest listed)

  module _ (stack : StackLaws host.lua_api) (callback : CallbackLaws host) (quiet : QuietLaws host)
      (laws : EngineLaws host) (hall : HallLaws host) (calm : CalmHooks host) where
    -- On an open server, whose scripts' hooks on a change of slot or a disconnection unseat nobody,
    -- the spawns of clients that are signing on, one after the other, all return. The slots and their users are then what the abstract server comes to by the same
    -- spawns, and the server is open.
    pub spawn_each-refines :
        (cs : List (ℕ × ℕ)) (w : World L)
        → IsOpen w
        → All (IsAt w) cs
        → IsAwaited (map slot_of cs) (view w)
        → (w' : World L) × (spawn_each cs w ≡ (ok tt, w'))
          × IsOpen w'
          × (view w' ≡ replay (map slot_of cs) (view w))
    unfolding spawn_each replay IsAwaited
    spawn_each-refines [] w open_before listed awaited = (w, refl, open_before, refl)
    spawn_each-refines ((j, client) ∷ rest) w open_before (here, listed) (held, awaited) =
        let (v, ran, open_after, same, seen, _) =
          spawn_refines stack callback quiet laws hall calm w open_before client j here held in
        let (w', ran_rest, open_end, seen_rest) =
          spawn_each-refines rest v open_after (listed-kept same rest listed)
            (subst (IsAwaited (map slot_of rest)) (sym seen) awaited) in
        (
          w',
          >>=-ok (hook_spawn_player client) _ ran ∙ ran_rest,
          open_end,
          seen_rest ∙ ap (replay (map slot_of rest)) seen,
        )

    -- After the spawns of clients that are signing on, one after the other on an open server whose
    -- scripts' hooks on a change of slot or a disconnection unseat nobody: the spawns return, nobody
    -- who was on a slot is without one, nobody is on two slots unless somebody was before, and
    -- whoever was on a player slot is on the same slot.
    pub spawn_each-IsFair :
        (cs : List (ℕ × ℕ)) (w : World L)
        → IsOpen w
        → All (IsAt w) cs
        → IsAwaited (map slot_of cs) (view w)
        → (w' : World L) × (spawn_each cs w ≡ (ok tt, w')) × IsFair (view w) (view w')
    spawn_each-IsFair cs w open_before listed awaited =
        let (w', ran, _, seen) = spawn_each-refines cs w open_before listed awaited in
        (w', ran, subst (IsFair (view w)) (sym seen) (replay-IsFair (map slot_of cs) (view w)))

    -- On an open server with a vacant player slot, whose scripts' hooks on a change of slot or a
    -- disconnection unseat nobody, a user on a slot past the player slots gets a
    -- vacant player slot by the spawn of their client, and the slot they waited on is vacant.
    pub queued_user_is_seated :
        (w : World L)
        → IsOpen w
        → (j client : ℕ) (u : ℤ) → get_elem? w.server_object.clients j ≡ some client
        → max_players ≤ j
        → view w j ≡ Seat.held u
        → (i : ℕ) → i < max_players
        → view w i ≡ Seat.vacant
        → (w' : World L) × (hook_spawn_player client w ≡ (ok tt, w'))
          × ((k : ℕ) × (k < max_players) × (view w k ≡ Seat.vacant) × (view w' k ≡ Seat.held u))
          × (view w' j ≡ Seat.vacant)
    queued_user_is_seated w open_before j client u here late held i low vacant =
        let (w', ran, _, _, seen, _) =
          spawn_refines stack callback quiet laws hall calm w open_before client j here (u, held) in
        let (k, bound, before, now, left) = queue_spawn_seats j i u (view w) late low held vacant in
        (w', ran, (k, bound, before, ap (λ s. s k) seen ∙ now), ap (λ s. s j) seen ∙ left)
