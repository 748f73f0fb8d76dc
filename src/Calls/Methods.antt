-- ===== src/Calls/Methods.antt =====
-- What the methods of a client that read it (source/queue.cpp) ensure for a caller from Lua.
use gmod_queue.Base.{ℕ, ℤ, pos, ◌≡◌, ◌≢◌, ◌==◌, ==→ne, not, Bool, true, false}
use gmod_queue.Engine.Client.{Client, is_connected, get_client_name}
use gmod_queue.World.Host.{Host}
use gmod_queue.World.Monad.{Action, pure, ◌>>=◌, ◌>>◌}
use gmod_queue.World.Memory.{read_client}
use gmod_queue.World.Interp.{lua_do}
use gmod_queue.UserData.{get_client}
use gmod_queue.ClientApi.{
  push_number_of, push_bool_of, client_get_name, client_get_steam_id, is_connected_at,
  client_is_valid, client_to_string,
}
use gmod_queue.Calls.Order.{
  InOrder, not-false, Ensures, Keeps, Ensures-pure, Keeps-pure, Keeps-gets, Ensures-if,
  Ensures-given, Ensures-bind, Ensures-then, Keeps-lua_do, Keeps-read_client,
}
use gmod_queue.Calls.Handles.{Called, get_client-Ensures, get_client-Keeps}

module _ (L : Type 0) ⦃host : Host L⦄ where
  -- A method that pushes one value.
  pub pushing-Keeps : (f : L → L) → Keeps {L = L} {A = ℕ} (do lua_do f; pure 1)
  pushing-Keeps f = Ensures-then (Keeps-lua_do f) (Keeps-pure 1)

  -- One that starts from its live client.
  pub with_client :
      {A : Type 0} (f : ℕ → Action L A)
      → ((p : ℕ) → p ≢ 0 → Keeps (f p))
      → Ensures Called (get_client (pos 1) true >>= f) (λ _. InOrder)
  with_client f each =
      Ensures-bind (get_client-Ensures L) λ p. Ensures-given InOrder (p ≢ 0) (f p) _ (each p)

  reading-Ensures :
      {A : Type 0} (f : Client → A) (push : A → L → L)
      → Ensures {L = L} {A = ℕ} Called
          (do p ← get_client (pos 1) true; c ← read_client p; lua_do (push (f c)); pure 1)
          (λ _. InOrder)
  reading-Ensures f push =
      with_client _
        λ p real. Ensures-bind (Keeps-read_client p real) (λ c. pushing-Keeps (push (f c)))

  pub push_number_of-Ensures :
      (f : Client → ℤ) → Ensures {L = L} Called (push_number_of f) (λ _. InOrder)
  unfolding push_number_of
  push_number_of-Ensures f = reading-Ensures f host.push_number

  pub push_bool_of-Ensures :
      (f : Client → Bool) → Ensures {L = L} Called (push_bool_of f) (λ _. InOrder)
  unfolding push_bool_of
  push_bool_of-Ensures f = reading-Ensures f host.push_bool

  pub client_get_name-Ensures : Ensures {L = L} Called client_get_name (λ _. InOrder)
  unfolding client_get_name
  client_get_name-Ensures = reading-Ensures get_client_name host.push_string

  pub client_get_steam_id-Ensures : Ensures {L = L} Called client_get_steam_id (λ _. InOrder)
  unfolding client_get_steam_id
  client_get_steam_id-Ensures = with_client _ λ p real.
      Ensures-bind (Keeps-gets (host.get_network_id_string p))
        (λ id. pushing-Keeps (host.push_string id))

  pub is_connected_at-Keeps : (p : ℕ) → Keeps {L = L} (is_connected_at p)
  unfolding is_connected_at
  is_connected_at-Keeps p =
      Ensures-if InOrder (p == 0) _ _ _ (λ _. Keeps-pure false)
        λ real.
          Ensures-bind (Keeps-read_client p (==→ne p 0 real)) (λ c. Keeps-pure (is_connected c))

  -- What is connected is no NULL.
  is_connected_known :
      (p : ℕ) → Ensures {L = L} InOrder (is_connected_at p) (λ b w. InOrder w × (b ≡ true → p ≢ 0))
  unfolding is_connected_at
  is_connected_known p =
      Ensures-if InOrder (p == 0) _ _ _ (λ _. Ensures-pure InOrder false _ (λ w o. (o, λ e. cc)))
        λ real.
          Ensures-bind (Keeps-read_client p (==→ne p 0 real))
            λ c. Ensures-pure InOrder (is_connected c) _ (λ w o. (o, λ _. ==→ne p 0 real))

  pub client_is_valid-Ensures : Ensures {L = L} Called client_is_valid (λ _. InOrder)
  unfolding client_is_valid
  client_is_valid-Ensures =
      Ensures-bind (get_client-Keeps L)
        λ p. Ensures-bind (is_connected_at-Keeps p) (λ b. pushing-Keeps (host.push_bool b))

  pub client_to_string-Ensures : Ensures {L = L} Called client_to_string (λ _. InOrder)
  unfolding client_to_string
  client_to_string-Ensures = Ensures-bind (get_client-Keeps L) λ p.
      Ensures-bind (is_connected_known p) λ b. Ensures-given InOrder (b ≡ true → p ≢ 0) _ _ λ known.
        Ensures-then
          (Ensures-if InOrder (not b) _ _ (λ _. InOrder) (λ _. Keeps-lua_do _)
            λ on. Ensures-bind (Keeps-read_client p (known (not-false b on))) (λ c. Keeps-lua_do _))
          (Keeps-pure 1)
