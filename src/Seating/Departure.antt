-- ===== src/Seating/Departure.antt =====
-- `GameServer_OnClientDisconnect` (source/queue.cpp) takes nobody from their slot: the engine does
-- that, after it.
use mathlib.Core.Path.{subst}
use gmod_queue.Base.{
  ℕ, ◌≡◌, ap, inl, inr, not, eqb_ℤ, minus_one, ◌==◌, Bool, true, false, Option, none, some, String,
  ⊤, lookup, get_elem?, if◌then◌else◌,
}
use gmod_queue.Engine.Protocol.{signonstate_none}
use gmod_queue.Engine.Client.{get_server}
use gmod_queue.World.State.{World}
use gmod_queue.World.Host.{Host}
use gmod_queue.World.Laws.{StackLaws, ReferenceLaws}
use gmod_queue.World.Monad.{Action, Result, ok, err, pure, call, continue, ◌>>=◌}
use gmod_queue.World.Frame.{
  IsStill, IsUntouched, pure-IsStill, gets-IsStill, looking-IsStill, then-IsStill, bind-IsStill,
  if-IsStill, note-IsStill, read_client-IsStill,
}
use gmod_queue.UserData.{delete_client}
use gmod_queue.UserData.Frame.{
  g_lua_do-IsStill, g_lua_get-IsStill, push_client-IsStill, delete_client-IsStill,
}
use gmod_queue.Hooks.{
  push_run, push_hook_table, push_hook, run_disconnect_hook, tell_disconnect, forget_registered,
  on_client_disconnect,
}
use gmod_queue.Hooks.Callback.{CallbackLaws}
use gmod_queue.Hooks.Disconnect.{on_client_disconnect-outcome}
use gmod_queue.Seating.Hall.{
  IsSameHall, IsSameHall-trans, lua-IsSameHall, CalmHooks, IsOpen, IsOpen-kept,
}

module _ {L : Type 0} where
  -- The same objects are the same hall.
  pub untouched-IsSameHall : (w w' : World L) → IsUntouched w w' → IsSameHall w w'
  untouched-IsSameHall w w' same = record {
    list = record { server = same.same_server; clients = ap (λ s. s.clients) same.same_object };
    guests = λ q.
        let e = ap (λ f. f q) same.same_client in
        record {
          place = record {
            same_slot = ap (λ c. c.client_slot) e;
            same_entity = ap (λ c. c.entity_index) e;
            same_server = ap (λ c. c.server) e;
          };
          user_id = ap (λ c. c.user_id) e;
          net_channel = ap (λ c. c.net_channel) e;
          taken = ap (λ c. eqb_ℤ c.signon_state signonstate_none) e;
        };
  }

  -- An action that leaves every user on their slot, whatever it ends in.
  unfoldable Stays : {A : Type 0} → Action L A → Type 0
  Stays m = (w : World L) → IsSameHall w (m w).1

  still-Stays : {A : Type 0} (m : Action L A) → IsStill m → Stays m
  unfolding Stays IsStill
  still-Stays m first w = untouched-IsSameHall w (m w).1 (first w)

  bind-Stays :
      {A B : Type 0} (m : Action L A) (f : A → Action L B)
      → Stays m
      → ((a : A) → Stays (f a))
      → Stays (m >>= f)
  unfolding Stays ◌>>=◌
  bind-Stays {A} {B} m f first rest w = IsSameHall-trans (first w) (continued (m w))
    where
      continued : (x : Result A × World L) → IsSameHall x.1 (continue f x).1
      continued (ok a, v) = rest a v
      continued (err e, v) = lua-IsSameHall v v.lua v.notes

  if-Stays :
      {A : Type 0} (b : Bool) (m n : Action L A) → Stays m → Stays n → Stays (if b then m else n)
  if-Stays true m n first second = first
  if-Stays false m n first second = second

  looking-Stays :
      {A : Type 0} (f : World L → Action L A) → ((w : World L) → Stays (f w)) → Stays (λ w. f w w)
  unfolding Stays
  looking-Stays f each w = each w w

module _ (L : Type 0) ⦃host : Host L⦄ where
  push_run-IsStill : (hook : String) → IsStill {L = L} (push_run hook)
  unfolding push_run
  push_run-IsStill hook = then-IsStill _ _ (g_lua_do-IsStill _) (
      bind-IsStill _ _ (g_lua_get-IsStill (host.get_type minus_one)) λ t.
        if-IsStill (not (eqb_ℤ t host.type_function)) _ _
          (then-IsStill _ _ (g_lua_do-IsStill _)
            (then-IsStill _ _ (note-IsStill L _) (pure-IsStill L false)))
          (then-IsStill _ _ (g_lua_do-IsStill _)
            (then-IsStill _ _ (g_lua_do-IsStill _) (pure-IsStill L true))))

  push_hook_table-IsStill : (hook : String) → IsStill {L = L} (push_hook_table hook)
  unfolding push_hook_table
  push_hook_table-IsStill hook = then-IsStill _ _ (g_lua_do-IsStill _) (
      bind-IsStill _ _ (g_lua_get-IsStill (host.get_type minus_one)) λ t.
        if-IsStill (not (eqb_ℤ t host.type_table)) _ _
          (then-IsStill _ _ (g_lua_do-IsStill _)
            (then-IsStill _ _ (note-IsStill L _) (pure-IsStill L false)))
          (push_run-IsStill hook))

  push_hook-IsStill : (hook : String) → IsStill {L = L} (push_hook hook)
  unfolding push_hook
  push_hook-IsStill hook = looking-IsStill _ λ w.
      if-IsStill (not w.lua_set) _ _ (then-IsStill _ _ (note-IsStill L _) (pure-IsStill L false)) (
        if-IsStill (not w.main_thread) _ _
          (then-IsStill _ _ (note-IsStill L _) (pure-IsStill L false))
          (push_hook_table-IsStill hook))

  module _ (calm : CalmHooks host) (client : ℕ) where
    call-Stays : Stays (call (host.call_function_protected 2 0 true))
    unfolding Stays
    call-Stays w = calm.disconnecting w

    tell_disconnect-Stays : Stays {L = L} (tell_disconnect client)
    unfolding tell_disconnect run_disconnect_hook
    tell_disconnect-Stays = looking-Stays _ λ w.
        if-Stays w.lua_set _ _
          (bind-Stays _ _ (still-Stays _ (push_hook-IsStill _)) λ pushed.
            if-Stays pushed _ _
              (bind-Stays _ _ (still-Stays _ (push_client-IsStill L client)) (λ _. call-Stays))
              (still-Stays _ (pure-IsStill L false)))
          (still-Stays _ (pure-IsStill L false))

    -- What is done for the entry that was found.
    unfoldable forgotten : Option ℕ → Action L ⊤
    forgotten o w = elim o [ none ↦ pure tt w | some _ ↦ delete_client client w ]

    forgotten-Stays : (o : Option ℕ) → Stays (forgotten o)
    unfolding forgotten
    forgotten-Stays none = still-Stays _ (pure-IsStill L tt)
    forgotten-Stays (some u) = still-Stays _ (delete_client-IsStill L client)

    forget_registered-Stays : Stays {L = L} (forget_registered client)
    unfolding forget_registered forgotten
    forget_registered-Stays =
        looking-Stays (λ w. forgotten (lookup client w.pushed))
          (λ w. forgotten-Stays (lookup client w.pushed))

    on_client_disconnect-Stays : Stays {L = L} (on_client_disconnect client)
    unfolding on_client_disconnect
    on_client_disconnect-Stays = bind-Stays _ _ (still-Stays _ (read_client-IsStill L client)) λ c.
        bind-Stays _ _ (still-Stays _ (gets-IsStill λ w. w.server)) λ server.
          if-Stays (not (get_server c == server)) _ _ (still-Stays _ (pure-IsStill L tt))
            (bind-Stays _ _ tell_disconnect-Stays (λ _. forget_registered-Stays))

module _ {L : Type 0} ⦃host : Host L⦄ (stack : StackLaws host.lua_api)
    (references : ReferenceLaws host.lua_api) (callback : CallbackLaws host)
    (calm : CalmHooks host) where
  -- On an open server, where the hooks leave users on their slots, the plugin's part of a disconnection returns, and the server stays open with
  -- everybody on their slot.
  pub on_client_disconnect-IsOpen :
      (w : World L) (client j : ℕ)
      → IsOpen w
      → w.lua_set ≡ true
      → w.main_thread ≡ true
      → get_elem? w.server_object.clients j ≡ some client
      → (v : World L) × (on_client_disconnect client w ≡ (ok tt, v)) × IsSameHall w v × IsOpen v
  unfolding Stays
  on_client_disconnect-IsOpen w client j before set main here =
      let stays = on_client_disconnect-Stays L calm client w in
      elim (on_client_disconnect-outcome stack references callback client w before.ready set main
        (before.layout.placed j client here).0) [
          | inl (_, ran) ↦ (w, ran, lua-IsSameHall w w.lua w.notes, before)
          | inr (_, u, v, ran, _, _, _, ready) ↦
              let same : IsSameHall w v = subst (IsSameHall w) (ap (λ x. x.1) ran) stays in
              (v, ran, same, IsOpen-kept same (λ _. ready) before)
        ]
