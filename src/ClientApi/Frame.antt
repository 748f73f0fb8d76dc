-- ===== src/ClientApi/Frame.antt =====
-- The methods of a client that only look leave the engine's objects alone.
use gmod_queue.Base.{ℕ, ℤ, pos, ◌==◌, Bool, true, false, not, eqb_ℤ}
use gmod_queue.Engine.Client.{Client, is_connected, get_user_id, get_client_name}
use gmod_queue.World.State.{UserData}
use gmod_queue.World.Host.{Host}
use gmod_queue.World.Monad.{pure, ◌>>=◌, ◌>>◌}
use gmod_queue.World.Frame.{
  IsStill, pure-IsStill, gets-IsStill, then-IsStill, bind-IsStill, if-IsStill, lua_do-IsStill,
  lua_call-IsStill, write_user_data-IsStill, read_client-IsStill, read_user_data-IsStill,
}
use gmod_queue.UserData
use gmod_queue.World.Memory.{read_client}
use gmod_queue.World.Interp.{lua_do}
use gmod_queue.UserData.Frame.{get_client-IsStill, get_client_data-IsStill}
use gmod_queue.ClientApi.{
  push_number_of, push_bool_of, client_get_name, client_get_steam_id, is_connected_at,
  client_is_valid, client_to_string, refresh_table, client_get_table, client_index,
  client_new_index,
}

module _ (L : Type 0) ⦃host : Host L⦄ where
  pub is_connected_at-IsStill : (p : ℕ) → IsStill {L = L} (is_connected_at p)
  unfolding is_connected_at
  is_connected_at-IsStill p =
      if-IsStill (p == 0) _ _ (pure-IsStill L false)
        (bind-IsStill _ _ (read_client-IsStill L p) (λ c. pure-IsStill L (is_connected c)))

  -- A method that pushes one value read from its live client.
  pushing-IsStill : (f : L → L) → IsStill {L = L} {A = ℕ} (do lua_do f; pure 1)
  pushing-IsStill f = then-IsStill _ _ (lua_do-IsStill f) (pure-IsStill L 1)

  reading-IsStill :
      {A : Type 0} (f : Client → A) (push : A → L → L)
      → IsStill {L = L} {A = ℕ}
          (do p ← UserData.get_client (pos 1) true; c ← read_client p; lua_do (push (f c)); pure 1)
  reading-IsStill f push =
      bind-IsStill _ _ (get_client-IsStill L (pos 1) true)
        λ p. bind-IsStill _ _ (read_client-IsStill L p) (λ c. pushing-IsStill (push (f c)))

  pub push_number_of-IsStill : (f : Client → ℤ) → IsStill {L = L} (push_number_of f)
  unfolding push_number_of
  push_number_of-IsStill f = reading-IsStill f host.push_number

  pub push_bool_of-IsStill : (f : Client → Bool) → IsStill {L = L} (push_bool_of f)
  unfolding push_bool_of
  push_bool_of-IsStill f = reading-IsStill f host.push_bool

  pub client_get_name-IsStill : IsStill {L = L} client_get_name
  unfolding client_get_name
  client_get_name-IsStill = reading-IsStill get_client_name host.push_string

  pub client_get_steam_id-IsStill : IsStill {L = L} client_get_steam_id
  unfolding client_get_steam_id
  client_get_steam_id-IsStill = bind-IsStill _ _ (get_client-IsStill L (pos 1) true) λ p.
      bind-IsStill _ _ (gets-IsStill (host.get_network_id_string p))
        λ id. pushing-IsStill (host.push_string id)

  pub client_is_valid-IsStill : IsStill {L = L} client_is_valid
  unfolding client_is_valid
  client_is_valid-IsStill = bind-IsStill _ _ (get_client-IsStill L (pos 1) false) λ p.
      bind-IsStill _ _ (is_connected_at-IsStill p)
        λ connected. pushing-IsStill (host.push_bool connected)

  pub client_to_string-IsStill : IsStill {L = L} client_to_string
  unfolding client_to_string
  client_to_string-IsStill = bind-IsStill _ _ (get_client-IsStill L (pos 1) false) λ p.
      bind-IsStill _ _ (is_connected_at-IsStill p) λ connected.
        then-IsStill _ _
          (if-IsStill (not connected) _ _ (lua_do-IsStill _)
            (bind-IsStill _ _ (read_client-IsStill L p) (λ c. lua_do-IsStill _)))
          (pure-IsStill L 1)

  refresh_table-IsStill : (u : ℕ) (d : UserData) (id : ℤ) → IsStill {L = L} (refresh_table u d id)
  unfolding refresh_table
  refresh_table-IsStill u d id = then-IsStill _ _ (lua_do-IsStill _) (
      then-IsStill _ _ (lua_do-IsStill _)
        (bind-IsStill _ _ (lua_call-IsStill _) (λ r. write_user_data-IsStill L u _)))

  pub client_get_table-IsStill : IsStill {L = L} client_get_table
  unfolding client_get_table
  client_get_table-IsStill = bind-IsStill _ _ (get_client_data-IsStill L (pos 1) true) λ u.
      bind-IsStill _ _ (read_user_data-IsStill L u) λ d.
        bind-IsStill _ _ (read_client-IsStill L d.object) λ c.
          then-IsStill _ _
            (if-IsStill (not (eqb_ℤ d.additional_data (get_user_id c))) _ _
              (refresh_table-IsStill u d _) (pure-IsStill L tt))
            (bind-IsStill _ _ (read_user_data-IsStill L u) (λ e. pushing-IsStill _))

  pub client_index-IsStill : IsStill {L = L} client_index
  unfolding client_index
  client_index-IsStill = bind-IsStill _ _ (lua_call-IsStill _) λ found.
      if-IsStill found _ _ (pure-IsStill L 1) (
        then-IsStill _ _ (lua_do-IsStill _) (
          bind-IsStill _ _ (get_client_data-IsStill L (pos 1) true) λ u.
            bind-IsStill _ _ (read_user_data-IsStill L u) λ d. then-IsStill _ _ (lua_do-IsStill _) (
              bind-IsStill _ _ (lua_call-IsStill _) λ own.
                then-IsStill _ _ (if-IsStill own _ _ (pure-IsStill L tt) (lua_do-IsStill _))
                  (pushing-IsStill _))))

  pub client_new_index-IsStill : IsStill {L = L} client_new_index
  unfolding client_new_index
  client_new_index-IsStill = bind-IsStill _ _ (get_client_data-IsStill L (pos 1) true) λ u.
      bind-IsStill _ _ (read_user_data-IsStill L u) λ d. then-IsStill _ _ (lua_do-IsStill _) (
        then-IsStill _ _ (lua_do-IsStill _) (
          then-IsStill _ _ (lua_do-IsStill _) (
            then-IsStill _ _ (lua_do-IsStill _)
              (then-IsStill _ _ (lua_do-IsStill _) (pure-IsStill L 0)))))
