-- ===== src/Seating/Traces.antt =====
-- Whatever the order of events, the engine's objects follow the abstract server, which stays in order.
use mathlib.Core.Path.{subst}
use gmod_queue.Base.{
  get_elem?, ℕ, ℤ, ◌==◌, ◌≡◌, refl, sym, ap, ◌∙◌, ◌≢◌, ◌⊎◌, inl, inr, Bool-cases, ==-ne, ◌<◌, List,
  [], ◌∷◌, All, arith,
}
use gmod_queue.Engine.Protocol.{max_players}
use gmod_queue.World.State.{World}
use gmod_queue.World.Host.{Host}
use gmod_queue.World.Laws.{StackLaws, ReferenceLaws}
use gmod_queue.Hooks.Callback.{CallbackLaws, IsReady, lua-IsReady}
use gmod_queue.Move.EngineLaws.{EngineLaws}
use gmod_queue.Move.Quiet.{QuietLaws}
use gmod_queue.Seating.{Seat, Seats, view, queue_spawn}
use gmod_queue.Seating.Users.{vacant-held, IsDistinct, queue_spawn-IsFair}
use gmod_queue.Seating.Hall.{
  HallLaws, CalmHooks, IsOpen, view-kept, IsSameHall, lua-IsSameHall, IsOpen-kept,
}
use gmod_queue.Seating.Departure.{on_client_disconnect-IsOpen, untouched-IsSameHall}
use gmod_queue.Calls.{run_call}
use gmod_queue.Calls.Fields.{LookupLaws}
use gmod_queue.Calls.Engine.{OrderLaws}
use gmod_queue.Calls.Safe.{run_call-IsSafe}
use gmod_queue.Calls.Look.{run_call-IsUntouched}
use gmod_queue.Seating.Refine.{spawn_refines}
use gmod_queue.Seating.FirstFree.{vacant_seat}
use gmod_queue.Seating.Visit.{set_seat, visited-view, visited-IsOpen}
use gmod_queue.Seating.Events.{
  Event, join, leave, spawn, look, looked, computed, apply, apply_each, Step, joined, left, spawned,
  Steps, stop, more,
}

module _ (seats : Seats) (j : ℕ) (seat : Seat) where
  -- Whoever sits somewhere after one seat was set sits at that seat, or sat there before.
  set_seat-cases :
      (k : ℕ) (u : ℤ)
      → set_seat j seat seats k ≡ Seat.held u
      → ((k ≡ j) × (seat ≡ Seat.held u)) ⊎ (seats k ≡ Seat.held u)
  set_seat-cases k u e = elim (Bool-cases (k == j)) [
    | inl at ↦
        let same : k ≡ j = ground (arith, at) in
        let now : set_seat j seat seats k ≡ seat = rw at refl in inl (same, sym now ∙ e)
    | inr off ↦ let now : set_seat j seat seats k ≡ seats k = rw off refl in inr (sym now ∙ e)
  ]

  set_seat-IsDistinct :
      ((k : ℕ) (u : ℤ) → seat ≡ Seat.held u → seats k ≢ Seat.held u)
      → IsDistinct seats
      → IsDistinct (set_seat j seat seats)
  set_seat-IsDistinct fresh d i k u ei ek = elim (set_seat-cases i u ei) [
    | inl (i_here, new) ↦ elim (set_seat-cases k u ek) [
      | inl (k_here, _) ↦ i_here ∙ sym k_here
      | inr old ↦ absurd (fresh k u new old)
    ]
    | inr old ↦ elim (set_seat-cases k u ek) [
      | inl (_, new) ↦ absurd (fresh i u new old)
      | inr older ↦ d i k u old older
    ]
  ]

-- What a step leaves in order: no user is on two slots, and a player that does not leave stays.
record IsOrderly (e : Event) (before after : Seats) : Type 0 where
  distinct : IsDistinct before → IsDistinct after
  playing :
      (i : ℕ) (u : ℤ)
      → i < max_players
      → e ≢ leave i
      → before i ≡ Seat.held u
      → after i ≡ Seat.held u

joined-IsOrderly :
    (j : ℕ) (u : ℤ) (seats : Seats)
    → seats j ≡ Seat.vacant
    → ((k : ℕ) → seats k ≢ Seat.held u)
    → IsOrderly (join j u) seats (set_seat j (Seat.held u) seats)
joined-IsOrderly j u seats vacant fresh = record {
  distinct = set_seat-IsDistinct seats j (Seat.held u) (λ k v e there. fresh k (there ∙ sym e));
  playing = λ i v lt stays e.
      let apart : i ≢ j = λ same. vacant-held v (sym vacant ∙ ap seats (sym same) ∙ e) in
      rw (==-ne i j apart) e;
}

left-IsOrderly : (j : ℕ) (seats : Seats) → IsOrderly (leave j) seats (set_seat j Seat.vacant seats)
left-IsOrderly j seats = record {
  distinct = set_seat-IsDistinct seats j Seat.vacant (λ k v e. absurd (vacant-held v e));
  playing = λ i v lt stays e.
      let apart : i ≢ j = λ same. stays (ap leave (sym same)) in rw (==-ne i j apart) e;
}

spawned-IsOrderly : (j : ℕ) (seats : Seats) → IsOrderly (spawn j) seats (queue_spawn j seats)
spawned-IsOrderly j seats =
    let fair = queue_spawn-IsFair j seats in
    record { distinct = fair.distinct; playing = λ i u lt stays e. fair.playing i u lt e }

module _ {L : Type 0} ⦃host : Host L⦄ where
  -- A step after which the hall is the same.
  looked-outcome :
      (w w' : World L)
      → IsSameHall w w'
      → IsReady w'
      → IsOpen w
      → IsOpen w' × (view w' ≡ view w) × IsOrderly look (view w) (view w')
  looked-outcome w w' same ready before =
      let seen = view-kept same in
      (
        IsOpen-kept same (λ _. ready) before,
        seen,
        subst (IsOrderly look (view w)) (sym seen)
            (record { distinct = λ d. d; playing = λ i u lt stays e. e }),
      )

  module _ (stack : StackLaws host.lua_api) (references : ReferenceLaws host.lua_api)
      (lookup : LookupLaws host.lua_api) (callback : CallbackLaws host) (engine : OrderLaws host)
      (quiet : QuietLaws host) (laws : EngineLaws host) (hall : HallLaws host)
      (calm : CalmHooks host) where
    -- One step from an open server.
    step-outcome :
        (w : World L) (e : Event) (w' : World L)
        → Step w e w'
        → IsOpen w
        → IsOpen w' × (view w' ≡ apply e (view w)) × IsOrderly e (view w) (view w')
    step-outcome w (join j u) w'
          (joined c l channel notes here vacant fresh place held channelled at) before =
        let seen =
          ap view (sym at)
          ∙ visited-view w j _ c l channel notes here place before
          ∙ ap (λ seat. set_seat j seat (view w)) held in
        (
          subst IsOpen at (
              visited-IsOpen w j _ c l channel notes here place before (λ late _. channelled late)),
          seen,
          subst (IsOrderly (join j u) (view w)) (sym seen)
              (joined-IsOrderly j u (view w) vacant fresh),
        )
    step-outcome w (leave j) w'
          (left {v = v} {client = client} c l channel notes here up main told place free at)
          before =
        let (u, told_too, same, open_then) =
          on_client_disconnect-IsOpen stack references callback calm w client j before up main
            here in
        let reached : u ≡ v = ap (λ x. x.1) (sym told_too ∙ told) in
        let hall_v = subst (IsSameHall w) reached same in
        let open_v = subst IsOpen reached open_then in
        let here_v = ap (λ l. get_elem? l j) hall_v.list.clients ∙ here in
        let seen =
          ap view (sym at)
          ∙ visited-view v j client c l channel notes here_v place open_v
          ∙ ap (λ seat. set_seat j seat (view v)) (vacant_seat c free)
          ∙ ap (set_seat j Seat.vacant) (view-kept hall_v) in
        (
          subst IsOpen at (
              visited-IsOpen v j client c l channel notes here_v place open_v
                (λ _ taken. absurd (taken free))),
          seen,
          subst (IsOrderly (leave j) (view w)) (sym seen) (left-IsOrderly j (view w)),
        )
    step-outcome w (spawn j) w' (spawned {client = client} at held ran) before =
        let (v, ran_too, open_after, _, seen, _) =
          spawn_refines stack callback quiet laws hall calm w before client j at held in
        let same : v ≡ w' = ap (λ x. x.1) (sym ran_too ∙ ran) in
        (
          subst IsOpen same open_after,
          ap view (sym same) ∙ seen,
          subst (IsOrderly (spawn j) (view w)) (sym (ap view (sym same) ∙ seen))
              (spawned-IsOrderly j (view w)),
        )
    step-outcome w look w' (looked c looks o needs ran) before =
        let (_, order) = run_call-IsSafe stack references lookup callback engine c w o needs in
        let same = untouched-IsSameHall w (run_call c w).1 (run_call-IsUntouched L c looks w) in
        looked-outcome w w' (subst (IsSameHall w) ran same) (subst IsReady ran order.ready) before
    step-outcome w look w' (computed l ran) before =
        looked-outcome w w' (subst (IsSameHall w) ran (lua-IsSameHall w l w.notes))
          (subst IsReady ran (lua-IsReady w l w.notes before.ready)) before

    -- Whatever the order in which users join, leave and spawn and Lua code looks at the clients, an
    -- open server stays open, and its slots and users are what the abstract server comes to by the
    -- same events, where a user joins past the player slots over a net channel, the plugin is told of each user who leaves on the main thread with Lua up,
    -- each spawn is one of a client that is signing on and returns, and each call from Lua finds what
    -- it asks for, and where the scripts' hooks on a change of slot or a disconnection unseat nobody.
    -- If no user was on two slots, none is; and a user on a player slot who does not
    -- leave is still there.
    pub Steps-refine :
        (w : World L) (es : List Event) (w' : World L)
        → Steps w es w'
        → IsOpen w
        → IsOpen w'
          × (view w' ≡ apply_each es (view w))
          × (IsDistinct (view w) → IsDistinct (view w'))
          × ((i : ℕ) (u : ℤ)
              → i < max_players
              → All (λ e. e ≢ leave i) es
              → view w i ≡ Seat.held u
              → view w' i ≡ Seat.held u)
    unfolding apply_each
    Steps-refine w [] w' stop before = (before, refl, λ d. d, λ i u lt stays e. e)
    Steps-refine w (e ∷ es) w' (more {v = v} step steps) before =
        let (open_v, seen, orderly) = step-outcome w e v step before in
        let (open_after, seen_rest, distinct, playing) = Steps-refine v es w' steps open_v in
        (
          open_after,
          seen_rest ∙ ap (apply_each es) seen,
          λ d. distinct (orderly.distinct d),
          λ i u lt (first, rest) held. playing i u lt rest (orderly.playing i u lt first held),
        )
