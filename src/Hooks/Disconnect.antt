-- ===== src/Hooks/Disconnect.antt =====
-- `GameServer_OnClientDisconnect` (source/queue.cpp).
use gmod_queue.Base.{
  ℕ, ◌+◌, ◌≡◌, refl, sym, ap, ◌∙◌, ◌≢◌, inl, inr, Bool, Bool-cases, true, false, if◌then◌else◌, not,
  arith, ◌==◌, ==-ne, ==_iff, Option, String, List, ◌⊎◌, ==→ne, lookup, none, some, Option-cases,
}
use gmod_queue.World.State.{World, Note}
use gmod_queue.World.Host.{Host}
use gmod_queue.World.Laws.{StackLaws, ReferenceLaws}
use gmod_queue.World.Monad.{Action, ◌>>=◌, ok, pure, gets, >>=-ok, if_then, if_else}
use gmod_queue.World.Memory.{read_client, read_client-ok}
use gmod_queue.UserData.{push_client, delete_client}
use gmod_queue.UserData.Once.{push_client-IsPushed}
use gmod_queue.UserData.Delete.{IsForgotten, delete_client_unknown, delete_client-IsForgotten}
use gmod_queue.Hooks.{
  push_hook, run_disconnect_hook, tell_disconnect, forget_registered, on_client_disconnect,
}
use gmod_queue.Hooks.Pushed.{IsPushable, hooked, push_hook-outcome}
use gmod_queue.Hooks.Callback.{IsReady, CallbackLaws, lua-IsReady}

abbrev disconnect_hook : String
disconnect_hook = "PlayerQueue:OnClientDisconnect"

module _ {L : Type 0} ⦃host : Host L⦄ (stack : StackLaws host.lua_api)
    (laws : ReferenceLaws host.lua_api) (callback : CallbackLaws host) where
  open host use {top, call_function_protected}

  -- A state that follows `w`: the stack is as high, and the plugin is as ready.
  record Follows (w u : World L) : Type 0 where
    balanced : top u.lua ≡ top w.lua
    ready : IsReady u
    up : u.lua_set ≡ true
    thread : u.main_thread ≡ w.main_thread

  module _ (client : ℕ) where
    -- `u` is the state after the hook was called with the client, as `Push_CBaseClient` pushes it; or
    -- where the hook cannot be pushed, `w` with other contents of the interpreter and the log.
    abbrev pub Told : World L → World L → Type 0
    Told w u =
        (IsPushable w
          × (y : World L) × (push_client client (hooked disconnect_hook w) ≡ (ok tt, y))
          × (u ≡ (call_function_protected 2 0 true y).1))
        ⊎ ((¬ IsPushable w) × (l : L) × (ns : List Note) × (u ≡ record w { lua = l; notes = ns }))

    -- The call, whether it succeeds or not, takes back its three values.
    run_disconnect_hook-outcome :
        (w : World L) (n : ℕ)
        → IsReady w
        → w.lua_set ≡ true
        → top w.lua ≡ n + 2
        → (b : Bool) × (u : World L) × (run_disconnect_hook client w ≡ (ok b, u))
          × (top u.lua ≡ n)
          × IsReady u
          × (u.lua_set ≡ true)
          × (u.main_thread ≡ w.main_thread)
          × ((y : World L) × (push_client client w ≡ (ok tt, y))
              × (u ≡ (call_function_protected 2 0 true y).1))
    unfolding run_disconnect_hook
    run_disconnect_hook-outcome w n ready set high =
        let (x, ran, pushes, grown) =
          push_client-IsPushed stack laws w client ready.registry ready.typed set in
        let typed =
          λ (e : x.client_type_id ≡ host.type_nil). ready.typed (sym pushes.same_type ∙ e) in
        let fine : IsReady x = record { registry = pushes.registry; typed = typed } in
        (
          (call_function_protected 2 0 true x).0,
          (call_function_protected 2 0 true x).1,
          >>=-ok (push_client client) _ ran,
          elim (Bool-cases (call_function_protected 2 0 true x).0) [
            | inl done ↦ omega (arith, callback.call_succeeded 2 0 true x (omega arith) done)
            | inr failed ↦ omega (arith, callback.call_failed 2 0 true x (omega arith) failed)
          ],
          callback.call_keeps_ready 2 0 true x fine,
          callback.call_keeps_lua 2 0 true x pushes.live,
          callback.call_keeps_thread 2 0 true x ∙ pushes.same_thread,
          (x, ran, refl),
        )

    tell_disconnect-Follows :
        (w : World L)
        → IsReady w
        → w.lua_set ≡ true
        → (b : Bool) × (u : World L) × (tell_disconnect client w ≡ (ok b, u))
          × Follows w u
          × Told w u
    unfolding tell_disconnect
    tell_disconnect-Follows w ready set =
        let asked : Action L Bool = (do
          pushed ← push_hook disconnect_hook
          if pushed then run_disconnect_hook client else pure false) in
        elim (push_hook-outcome stack w disconnect_hook) [
          | inr (never, l, ns, ran, level) ↦
              let x : World L = record w { lua = l; notes = ns } in
              (
                false,
                x,
                if_then asked (pure false) w set
                    ∙ >>=-ok (push_hook disconnect_hook) _ ran
                    ∙ if_else (run_disconnect_hook client) (pure false) x refl,
                record {
                  balanced = level;
                  ready = lua-IsReady w l ns ready;
                  up = set;
                  thread = refl;
                },
                inr (never, l, ns, refl),
              )
          | inl (can, ran, high) ↦
              let x : World L = hooked disconnect_hook w in
              let (b, u, called, low, after, up, thread, given) =
                run_disconnect_hook-outcome x (top w.lua) (lua-IsReady w x.lua w.notes ready) set
                  high in
              let (y, pushed, same) = given in
              (
                b,
                u,
                if_then asked (pure false) w set
                    ∙ >>=-ok (push_hook disconnect_hook) _ ran
                    ∙ if_then (run_disconnect_hook client) (pure false) x refl
                    ∙ called,
                record { balanced = low; ready = after; up = up; thread = thread },
                inl (can, y, pushed, same),
              )
        ]

    forget_registered_lem : (w : World L) → forget_registered client w ≡ delete_client client w
    unfolding forget_registered
    forget_registered_lem w = elim (Option-cases (lookup client w.pushed)) [
      | inl unknown ↦ chosen unknown ∙ sym (delete_client_unknown w client unknown)
      | inr (u, known) ↦ chosen known
    ]
      where
        chosen :
            {o : Option ℕ}
            → lookup client w.pushed ≡ o
            → forget_registered client w
              ≡ elim o [ none ↦ pure tt w | some _ ↦ delete_client client w ]
        chosen e = ap (λ o. elim o [ none ↦ pure tt w | some _ ↦ delete_client client w ]) e

    -- A client of another server, such as a SourceTV one, is left alone.
    on_client_disconnect_foreign :
        (w : World L)
        → client ≢ 0
        → (w.client client).server ≢ w.server
        → on_client_disconnect client w ≡ (ok tt, w)
    unfolding on_client_disconnect
    on_client_disconnect_foreign w real foreign =
        >>=-ok (read_client client) _ (read_client-ok w client real)
        ∙ >>=-ok (gets (λ v. v.server)) _ refl
        ∙ if_then _ _ w (ap not (==-ne _ _ foreign))

    -- On the main thread, with Lua up and the plugin ready, the call returns for every client object.
    -- A client of another server changes nothing. A client of this server comes first to Lua: the hook
    -- is called with what `Push_CBaseClient` pushes for it, if it can be pushed. In the state `u` that
    -- this leaves, the client's entry is then erased and its box freed, if it has one; no other
    -- client's entry changes. The Lua stack is as high as before and the plugin is ready.
    pub on_client_disconnect-outcome :
        (w : World L)
        → IsReady w
        → w.lua_set ≡ true
        → w.main_thread ≡ true
        → client ≢ 0
        → (((w.client client).server ≢ w.server) × (on_client_disconnect client w ≡ (ok tt, w)))
          ⊎ (((w.client client).server ≡ w.server)
              × (u : World L) × (w' : World L) × (on_client_disconnect client w ≡ (ok tt, w'))
              × Told w u
              × IsForgotten client u w'
              × (top w'.lua ≡ top w.lua)
              × IsReady w')
    unfolding on_client_disconnect
    on_client_disconnect-outcome w ready set main real =
        elim (Bool-cases ((w.client client).server == w.server)) [
          | inr foreign ↦
              let apart = ==→ne _ _ foreign in
              inl (apart, on_client_disconnect_foreign w real apart)
          | inl ours ↦
              let (b, u, told, follows, heard) = tell_disconnect-Follows w ready set in
              let (w', deleted, gone, level) =
                delete_client-IsForgotten stack u client follows.ready.registry follows.up
                  (follows.thread ∙ main) in
              inr (
                (==_iff _ _).0 ours,
                u,
                w',
                >>=-ok (read_client client) _ (read_client-ok w client real)
                    ∙ >>=-ok (gets (λ v. v.server)) _ refl
                    ∙ if_else _ _ w (ap not ours)
                    ∙ >>=-ok (tell_disconnect client) _ told
                    ∙ forget_registered_lem u
                    ∙ deleted,
                heard,
                gone,
                level ∙ follows.balanced,
                record {
                  registry = gone.registry;
                  typed = λ e. follows.ready.typed (sym gone.same_type ∙ e);
                },
              )
        ]
