-- ===== src/Entries/Detours.antt =====
-- What the detours of source/queue.cpp ensure, whatever state the engine enters them in.
use gmod_queue.Base.{
  ℕ, ◌≤◌, ◌≡◌, sym, ap, inl, inr, arith, true, false, ◌∙◌, ◌≢◌, ◌==◌, not, Option, none, some, ⊤,
  lookup, get_elem?,
}
use gmod_queue.Engine.Client.{get_server}
use gmod_queue.Engine.ServerInfo.{ServerInfo}
use gmod_queue.World.State.{World}
use gmod_queue.World.Host.{Host}
use gmod_queue.World.Laws.{StackLaws, ReferenceLaws}
use gmod_queue.World.Monad.{pure}
use gmod_queue.UserData.{delete_client}
use gmod_queue.UserData.Delete.{delete_client-IsForgotten}
use gmod_queue.Hooks.{
  hook_fill_server_info, hook_notify_client_disconnect, on_client_disconnect, tell_disconnect,
  run_disconnect_hook, forget_registered,
}
use gmod_queue.Hooks.Callback.{CallbackLaws}
use gmod_queue.Move.EngineLaws.{EngineLaws}
use gmod_queue.Move.Quiet.{QuietLaws, IsQuiet}
use gmod_queue.Spawn.{hook_spawn_player}
use gmod_queue.Seating.{seat_at, view}
use gmod_queue.Seating.Users.{IsHeld}
use gmod_queue.Seating.Hall.{HallLaws, IsOpen}
use gmod_queue.Seating.FirstFree.{vacant_seat}
use gmod_queue.Seating.Exchange.{slot-injective}
use gmod_queue.Slots.Minimum.{IsFree}
use gmod_queue.Spawn.Cases.{hook_spawn_player-cases}
use gmod_queue.Move.Total.{move_client-IsQuiet}
use gmod_queue.Engine.Protocol.{max_players}
use gmod_queue.Calls.Order.{
  InOrder, note-InOrder, Ends, Keeps, Keeps-pure, Keeps-gets, Keeps-if, Keeps-call, Keeps-modify,
  Keeps-read_client, Ensures-bind, Ensures-then, Ensures-looking, Ensures-before,
}
use gmod_queue.Calls.Handles.{Ends-ok, push_client-Keeps}
use gmod_queue.Calls.Engine.{OrderLaws, push_hook-Keeps, callback-Keeps}

module _ {L : Type 0} ⦃host : Host L⦄ where
  pub quiet-InOrder : (w w' : World L) → IsQuiet w w' → InOrder w → InOrder w'
  quiet-InOrder w w' quiet o = record {
    ready = quiet.ready o.ready;
    up = quiet.up o.up;
    thread = quiet.thread ∙ o.thread;
  }

module _ (L : Type 0) ⦃host : Host L⦄ where
  pub hook_fill_server_info-Keeps :
      QuietLaws host
      → (server : ℕ) (info : ServerInfo) → Keeps {L = L} (hook_fill_server_info server info)
  unfolding hook_fill_server_info
  hook_fill_server_info-Keeps quiet server info =
      Ensures-bind
        (Keeps-call _ (λ w. quiet-InOrder w _ (quiet.fill_server_info_quiet server info w)))
        (λ filled. Keeps-pure _)

  delete_client-Keeps : StackLaws host.lua_api → (c : ℕ) → Keeps {L = L} (delete_client c)
  delete_client-Keeps stack c = record {
    at = λ w o.
        let (w', ran, gone, _) =
          delete_client-IsForgotten stack w c o.ready.registry o.up o.thread in
        Ends-ok _ _ tt w' ran (record {
          ready = record {
            registry = gone.registry;
            typed = λ e. o.ready.typed (sym gone.same_type ∙ e);
          };
          up = gone.same_lua ∙ o.up;
          thread = gone.same_thread ∙ o.thread;
        });
  }

  -- The part of a disconnection that looks the client up.
  forget_registered-Keeps : StackLaws host.lua_api → (c : ℕ) → Keeps {L = L} (forget_registered c)
  unfolding forget_registered
  forget_registered-Keeps stack c = record { at = λ w o. chosen w o (lookup c w.pushed) }
    where
      chosen :
          (w : World L)
          → InOrder w
          → (o : Option ℕ)
          → Ends {L = L} {A = ⊤}
              (λ _. InOrder)
              (elim o [ none ↦ pure tt w | some _ ↦ delete_client c w ])
      chosen w o none = (Keeps-pure tt).at w o
      chosen w o (some u) = (delete_client-Keeps stack c).at w o

  module _ (stack : StackLaws host.lua_api) (references : ReferenceLaws host.lua_api)
      (callback : CallbackLaws host) where
    tell_disconnect-Keeps : (c : ℕ) → Keeps {L = L} (tell_disconnect c)
    unfolding tell_disconnect run_disconnect_hook
    tell_disconnect-Keeps c = Ensures-looking InOrder _ _ λ w.
        Ensures-before _ InOrder _ _ (λ v (o, _). o)
          (Keeps-if w.lua_set _ _
            (Ensures-bind (push_hook-Keeps L stack _) λ pushed.
              Keeps-if pushed _ _
                (Ensures-then (push_client-Keeps L stack references c)
                  (callback-Keeps L callback 2 0 true))
                (Keeps-pure false))
            (Keeps-pure false))

    pub hook_notify_client_disconnect-Keeps :
        OrderLaws host
        → (steam c : ℕ) → c ≢ 0
        → Keeps {L = L} (hook_notify_client_disconnect steam c)
    unfolding hook_notify_client_disconnect on_client_disconnect
    hook_notify_client_disconnect-Keeps engine steam c real =
        Ensures-then
          (Ensures-bind (Keeps-read_client c real) λ client.
            Ensures-bind (Keeps-gets λ w. w.server) λ server.
              Keeps-if (not (get_server client == server)) _ _ (Keeps-pure tt)
                (Ensures-then (tell_disconnect-Keeps c) (forget_registered-Keeps stack c)))
          (Keeps-modify _ (engine.notify_client_disconnect_order steam c))

  -- A client that is signing on spawns on an open server.
  pub record AsksSpawn (c : ℕ) (w : World L) : Type 0 where
    pub server_open : IsOpen w
    pub slot : ℕ
    pub here : get_elem? w.server_object.clients slot ≡ some c
    pub signing_on : IsHeld (view w slot)

  pub spawn_player-Ends :
      StackLaws host.lua_api
      → CallbackLaws host
      → QuietLaws host
      → EngineLaws host
      → HallLaws host
      → (c : ℕ) (w : World L) → InOrder w
      → AsksSpawn c w
      → Ends (λ _. InOrder) (hook_spawn_player c w)
  spawn_player-Ends stack callback quiet laws hall c w o asks =
      let layout = asks.server_open.layout in
      let (real, at, _) = layout.placed asks.slot c asks.here in
      let (u, held) = asks.signing_on in
      let taken : ¬ IsFree (w.client c) = λ free.
        let vacant = ap (seat_at w.client) asks.here ∙ vacant_seat (w.client c) free in cc in
      elim (hook_spawn_player-cases w layout c real) [
        | inl (_, ran) ↦ Ends-ok _ _ tt _ ran (quiet-InOrder w _ (hall.spawn_quiet c w) o)
        | inr (inl (_, _, ran)) ↦ Ends-ok _ _ tt _ ran (note-InOrder w _ o)
        | inr (inr (far, (i, target, f, ran))) ↦
            let late : max_players ≤ asks.slot = ground (arith, at, far) in
            let apart : c ≢ target = λ e.
              let same = slot-injective w layout asks.slot i c target asks.here f.here e in
              omega (arith, same, late, f.playable) in
            let (w', moved, calm, _) =
              move_client-IsQuiet stack callback quiet c target real
                (layout.placed i target f.here).0 laws apart w o.ready
                (asks.server_open.wired asks.slot c late asks.here taken)
                (layout.homed i target f.here) in
            Ends-ok _ _ tt w' (ran ∙ moved) (quiet-InOrder w w' calm o)
      ]
