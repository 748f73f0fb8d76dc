-- ===== src/GameServer/Clients.antt =====
-- `gameserver_GetClient` at each index.
use gmod_queue.Base.{
  ℕ, ◌≤◌, ℤ, pos, negsuc, ◌≡◌, refl, ap, ◌∙◌, ◌≢◌, inl, inr, ◌==◌, ==-ne, not, true, false, some,
  arith, leb_ℤ, ltb_ℤ, cast_int, sign-cases, length, ◌⊎◌, ◌+◌, get_elem?, get_elem?_cases,
  if◌then◌else◌,
}
use gmod_queue.Engine.Protocol.{signonstate_connected}
use gmod_queue.Engine.Client.{is_connected}
use gmod_queue.World.State.{World}
use gmod_queue.World.Host.{Host}
use gmod_queue.World.Laws.{StackLaws, ReferenceLaws}
use gmod_queue.UserData.Push.{IsPushed}
use gmod_queue.UserData.Once.{push_client-IsPushed}
use gmod_queue.Hooks.Callback.{IsReady}
use gmod_queue.World.Monad.{
  ok, err, lua_error, fault, pure, or_raise, >>=-ok, >>=-err, if_then, if_else, ◌>>◌,
}
use gmod_queue.World.Memory.{read_client, read_client-ok}
use gmod_queue.World.Interp.{lua_get}
use gmod_queue.Util.{deref_server, client_at}
use gmod_queue.UserData.{push_client}
use gmod_queue.ClientApi.{bad_argument, is_connected_at}
use gmod_queue.GameServer.{is_running, push_connected, get_client_running, server_get_client}

module _ {L : Type 0} ⦃host : Host L⦄ (w : World L) where
  deref_server-ok : w.server ≢ 0 → deref_server w ≡ (ok w.server_object, w)
  deref_server-ok known = if_else {b = w.server == 0} _ _ w (==-ne w.server 0 known)

  is_connected_at-ok : (p : ℕ) → p ≢ 0 → is_connected_at p w ≡ (ok (is_connected (w.client p)), w)
  unfolding is_connected_at
  is_connected_at-ok p real =
      if_else {b = p == 0} _ _ w (==-ne p 0 real)
      ∙ >>=-ok (read_client p) (λ c. pure (is_connected c)) {w = w} (read_client-ok w p real)

  module _ (known : w.server ≢ 0) (running : is_running w ≡ true) (number index : ℤ)
      (given : host.check_number (pos 1) w.lua ≡ some number) (cast : cast_int number ≡ index) where
    called : server_get_client w ≡ get_client_running w
    unfolding server_get_client
    called = if_else (pure 0) _ w (ap not running)

    read_index :
        server_get_client w
        ≡ (if leb_ℤ (pos (length w.server_object.clients)) (cast_int number)
              then pure 0
              else push_connected (cast_int number))
            w
    unfolding get_client_running
    read_index =
        called
        ∙ (>>=-ok (lua_get (host.check_number (pos 1))) _ refl
            ∙ (>>=-ok (or_raise (host.check_number (pos 1) w.lua) (lua_error bad_argument)) _
                  {w = w} (ap (λ o. or_raise o (lua_error bad_argument) w) given)
                ∙ >>=-ok deref_server _ (deref_server-ok known)))

    dispatched :
        server_get_client w
        ≡ (if leb_ℤ (pos (length w.server_object.clients)) index
              then pure 0
              else push_connected index)
            w
    dispatched =
        read_index
        ∙ ap
            (λ i.
              (if leb_ℤ (pos (length w.server_object.clients)) i then pure 0 else push_connected i)
                w)
            cast

    looked_up :
        leb_ℤ (pos (length w.server_object.clients)) index ≡ false
        → server_get_client w ≡ push_connected index w
    looked_up inside = dispatched ∙ if_else (pure 0) _ w inside

    refused :
        leb_ℤ (pos (length w.server_object.clients)) index ≡ true → server_get_client w ≡ (ok 0, w)
    refused outside = dispatched ∙ if_then (pure 0) _ w outside

-- A negative index passes the only guard of `GetClient`, so that while the server runs, each of them
-- reads out of range.
server_get_client_negative :
    {L : Type 0} ⦃host : Host L⦄ (w : World L) (number : ℤ) (i : ℕ)
    → w.server ≢ 0
    → is_running w ≡ true
    → host.check_number (pos 1) w.lua ≡ some number
    → cast_int number ≡ negsuc i
    → (server_get_client w).0 ≡ err fault
unfolding push_connected
server_get_client_negative w number i known running given cast =
    let reads : (deref_server w) ≡ (ok w.server_object, w) = deref_server-ok w known in
    ap (λ x. x.0)
      (looked_up w known running number (negsuc i) given cast (ground arith)
        ∙ (>>=-ok deref_server _ reads ∙ >>=-err (client_at w.server_object (negsuc i)) _ refl))

-- The client that `GetClient` shows for the object at an address: NULL if it is not connected.
abbrev pub shown : {L : Type 0} → World L → ℕ → ℕ
shown w p = if ltb_ℤ (w.client p).signon_state signonstate_connected then 0 else p

shown_lem :
    {L : Type 0} (w : World L) (p : ℕ) → (if is_connected (w.client p) then p else 0) ≡ shown w p
shown_lem w p = ground arith

-- What `GetClient` does at an index that is not negative.
abbrev pub Looked : {L : Type 0} ⦃host : Host L⦄ → World L → ℕ → Type 0
Looked {L} ⦃host⦄ w i =
    ((length w.server_object.clients ≤ i) × (server_get_client w ≡ (ok 0, w)))
    ⊎ ((p : ℕ) × (get_elem? w.server_object.clients i ≡ some p)
        × (w' : World L) × (push_client (shown w p) w ≡ (ok tt, w'))
        × (server_get_client w ≡ (ok 1, w'))
        × IsPushed (shown w p) w w'
        × (host.top w'.lua ≡ host.top w.lua + 1))

module _ {L : Type 0} ⦃host : Host L⦄ (stack : StackLaws host.lua_api)
    (laws : ReferenceLaws host.lua_api) where
  server_get_client_within :
      (w : World L) (number : ℤ) (i : ℕ)
      → IsReady w
      → w.lua_set ≡ true
      → w.server ≢ 0
      → is_running w ≡ true
      → host.check_number (pos 1) w.lua ≡ some number
      → cast_int number ≡ pos i
      → ((j p : ℕ) → get_elem? w.server_object.clients j ≡ some p → p ≢ 0)
      → Looked w i
  unfolding push_connected
  server_get_client_within w number i ready set known running given cast real =
      elim (get_elem?_cases w.server_object.clients i) [
        | inr outside ↦
            inl (outside, refused w known running number (pos i) given cast (ground arith))
        | inl (p, here, inside) ↦
            let (w', ran, pushes, grown) =
              push_client-IsPushed stack laws w (shown w p) ready.registry ready.typed set in
            inr (
              p,
              here,
              w',
              ran,
              looked_up w known running number (pos i) given cast (ground arith)
                  ∙ (>>=-ok deref_server _ (deref_server-ok w known)
                      ∙ (>>=-ok (client_at w.server_object (pos i)) _ {w = w}
                            (ap (λ o. or_raise o fault w) here)
                          ∙ (>>=-ok (is_connected_at p) _ (is_connected_at-ok w p (real i p here))
                              ∙ (ap (λ x. (push_client x >> pure 1) w) (shown_lem w p)
                                  ∙ >>=-ok (push_client (shown w p)) _ ran)))),
              pushes,
              grown,
            )
      ]

  pub server_get_client-outcome :
      (w : World L) (number : ℤ)
      → IsReady w
      → w.lua_set ≡ true
      → w.server ≢ 0
      → is_running w ≡ true
      → host.check_number (pos 1) w.lua ≡ some number
      → ((j p : ℕ) → get_elem? w.server_object.clients j ≡ some p → p ≢ 0)
      → ((i : ℕ) × (cast_int number ≡ negsuc i) × ((server_get_client w).0 ≡ err fault))
        ⊎ ((i : ℕ) × (cast_int number ≡ pos i) × Looked w i)
  server_get_client-outcome w number ready set known running given real =
      elim (sign-cases (cast_int number)) [
        | inl (i, below) ↦
            inl (i, below, server_get_client_negative w number i known running given below)
        | inr (i, above) ↦
            inr (
              i,
              above,
              server_get_client_within w number i ready set known running given above real,
            )
      ]
