-- ===== src/Move/Announce.antt =====
-- The hook that tells Lua of a move, and the message that tells the client.
use gmod_queue.Base.{
  ℕ, ◌+◌, ◌≡◌, refl, ap, ◌∙◌, ◌≢◌, ◌⊎◌, inl, inr, Bool, Bool-cases, true, false, List, arith,
}
use gmod_queue.Engine.ServerInfo.{ServerInfo}
use gmod_queue.World.State.{World, Note}
use gmod_queue.World.Host.{Host}
use gmod_queue.World.Laws.{StackLaws}
use gmod_queue.World.Monad.{ok, call, >>=-ok, if_then, if_else}
use gmod_queue.World.Memory.{deref, deref-ok, read_client, read_client-ok}
use gmod_queue.World.Interp.{g_lua_do, g_lua_do-ok}
use gmod_queue.Hooks.{push_hook, hook_fill_server_info, clamp_max_clients}
use gmod_queue.Hooks.Balance.{push_hook-IsHookPushed, height}
use gmod_queue.Hooks.Callback.{IsReady, CallbackLaws, lua-IsReady}
use gmod_queue.Move.{announce, run_changed_slot_hook, send_server_info}
use gmod_queue.Move.Quiet.{IsQuiet, IsQuiet-trans, QuietLaws}

-- The state `u` is `w` with other contents of the interpreter and the log; or what the call of a
-- hook with three values leaves of such a state.
abbrev pub IsAfterCall : {L : Type 0} ⦃host : Host L⦄ → World L → World L → Type 0
IsAfterCall {L} ⦃host = host⦄ w u =
    (l : L) × (notes : List Note) × ((u ≡ record w { lua = l; notes = notes })
      ⊎ (u ≡ (host.call_function_protected 3 0 true (record w { lua = l; notes = notes })).1))

-- The state after the message went out, with the slot of the target.
abbrev pub informed : {L : Type 0} ⦃host : Host L⦄ → ℕ → World L → World L
informed ⦃host = host⦄ target w =
    let (filled, v) = host.fill_server_info (w.client target).server host.blank_server_info w in
    host.send_net_msg target
      (record (clamp_max_clients filled) { player_slot = (v.client target).client_slot }) true v

pub send_server_info_lem :
    {L : Type 0} ⦃host : Host L⦄ (target : ℕ)
    → target ≢ 0
    → (w : World L) → (w.client target).server ≢ 0
    → send_server_info target w ≡ (ok tt, informed target w)
unfolding send_server_info hook_fill_server_info
send_server_info_lem ⦃host⦄ target aim w placed =
    let server : ℕ = (w.client target).server in
    let fill = call (host.fill_server_info server host.blank_server_info) in
    let v : World _ = (host.fill_server_info server host.blank_server_info w).1 in
    >>=-ok (read_client target) _ (read_client-ok w target aim)
    ∙ (>>=-ok (deref server) _ {w = w} (deref-ok w server placed)
        ∙ (>>=-ok (hook_fill_server_info server host.blank_server_info) _
              (>>=-ok fill _ {w = w} refl)
            ∙ >>=-ok (read_client target) _ (read_client-ok v target aim)))

module _ {L : Type 0} ⦃host : Host L⦄ (stack : StackLaws host.lua_api)
    (callback : CallbackLaws host) (quiet : QuietLaws host) where
  open host use {push_number, call_function_protected, top}

  module _ (origin target : ℕ) (real : origin ≢ 0) (aim : target ≢ 0) where
    -- The hook's call, with `hook.Run` and the name above `n` other values.
    run_changed_slot_hook-outcome :
        (x : World L) (n : ℕ)
        → IsReady x
        → x.lua_set ≡ true
        → top x.lua ≡ n + 2
        → (b : Bool) × (u : World L) × (run_changed_slot_hook origin target x ≡ (ok b, u))
          × (top u.lua ≡ n)
          × IsReady u
          × (u.lua_set ≡ true)
          × (u.main_thread ≡ x.main_thread)
          × IsAfterCall x u
    unfolding run_changed_slot_hook
    run_changed_slot_hook-outcome x n ready set high =
        let y : World L = record x { lua = push_number (x.client origin).client_slot x.lua } in
        let z : World L = record y { lua = push_number (x.client target).client_slot y.lua } in
        let first = stack.push_number_top (x.client origin).client_slot x.lua in
        let second = stack.push_number_top (x.client target).client_slot y.lua in
        (
          (call_function_protected 3 0 true z).0,
          (call_function_protected 3 0 true z).1,
          >>=-ok (read_client origin) _ (read_client-ok x origin real)
              ∙ (>>=-ok (g_lua_do (push_number (x.client origin).client_slot)) _
                    (g_lua_do-ok x set _)
                  ∙ (>>=-ok (read_client target) _ (read_client-ok y target aim)
                      ∙ >>=-ok (g_lua_do (push_number (x.client target).client_slot)) _
                          (g_lua_do-ok y set _))),
          elim (Bool-cases (call_function_protected 3 0 true z).0) [
            | inl succeeded ↦ omega (
              arith,
              first,
              second,
              high,
              callback.call_succeeded 3 0 true z (omega arith) succeeded,
            )
            | inr failed ↦
                omega
                  (arith, first, second, high, callback.call_failed 3 0 true z (omega arith) failed)
          ],
          callback.call_keeps_ready 3 0 true z (lua-IsReady x z.lua x.notes ready),
          callback.call_keeps_lua 3 0 true z set,
          callback.call_keeps_thread 3 0 true z,
          (z.lua, x.notes, inr refl),
        )

    pub announce-outcome :
        (w : World L)
        → IsReady w
        → (b : Bool) × (u : World L) × (announce origin target w ≡ (ok b, u))
          × IsQuiet w u
          × IsAfterCall w u
    unfolding announce
    announce-outcome w ready =
        let (p, live) = push_hook-IsHookPushed stack w "PlayerQueue:OnPlayerChangedSlot" in
        let x : World L = record w { lua = p.lua; notes = p.notes } in
        let fine = lua-IsReady w p.lua p.notes ready in
        let asked = >>=-ok (push_hook "PlayerQueue:OnPlayerChangedSlot") _ p.ran in
        elim (Bool-cases p.answer) [
          | inr silent ↦ (
            false,
            x,
            asked ∙ if_else _ _ x silent,
            record {
              level = p.balanced ∙ ap (height (top w.lua)) silent;
              ready = λ _. fine;
              up = λ s. s;
              thread = refl;
            },
            (p.lua, p.notes, inl refl),
          )
          | inl loud ↦
              let (b, u, ran, low, after, up, thread, called) =
                run_changed_slot_hook-outcome x (top w.lua) fine (live loud).0
                  (p.balanced ∙ ap (height (top w.lua)) loud) in
              (
                b,
                u,
                asked ∙ if_then _ _ x loud ∙ ran,
                record { level = low; ready = λ _. after; up = λ _. up; thread = thread },
                called,
              )
        ]

    pub send_server_info-outcome :
        (w : World L)
        → (w.client target).server ≢ 0
        → (send_server_info target w ≡ (ok tt, informed target w)) × IsQuiet w (informed target w)
    send_server_info-outcome w placed =
        let filled : ServerInfo × World L =
          host.fill_server_info (w.client target).server host.blank_server_info w in
        (
          send_server_info_lem target aim w placed,
          IsQuiet-trans
              (quiet.fill_server_info_quiet (w.client target).server host.blank_server_info w)
              (quiet.send_net_msg_quiet target _ true filled.1),
        )
