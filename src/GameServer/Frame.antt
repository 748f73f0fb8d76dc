-- ===== src/GameServer/Frame.antt =====
-- What Lua code can call to look at the clients leaves the engine's objects alone.
use gmod_queue.Base.{cast_int, ℕ, suc, ℤ, pos, negsuc, ◌==◌, Bool, not, List, [], ◌∷◌, leb_ℤ}
use gmod_queue.Engine.Client.{Client, is_connected}
use gmod_queue.Engine.Server.{Server, get_client, get_client_count}
use gmod_queue.World.State.{World}
use gmod_queue.World.Host.{Host}
use gmod_queue.World.Monad.{fault, lua_error}
use gmod_queue.World.Frame.{
  IsStill, IsUntouched, pure-IsStill, raise-IsStill, gets-IsStill, looking-IsStill, then-IsStill,
  bind-IsStill, if-IsStill, or_raise-IsStill, lua_do-IsStill, read_client-IsStill,
}
use gmod_queue.UserData.{delete_client}
use gmod_queue.Util.{deref_server, client_at}
use gmod_queue.UserData.Frame.{push_client-IsStill, delete_client-IsStill}
use gmod_queue.ClientApi.{
  push_number_of, push_bool_of, client_get_name, client_get_steam_id, client_is_valid,
  client_to_string, client_get_table, client_index, client_new_index, bad_argument,
}
use gmod_queue.ClientApi.Frame.{
  is_connected_at-IsStill, push_number_of-IsStill, push_bool_of-IsStill, client_get_name-IsStill,
  client_get_steam_id-IsStill, client_is_valid-IsStill, client_to_string-IsStill,
  client_get_table-IsStill, client_index-IsStill, client_new_index-IsStill,
}
use gmod_queue.GameServer.{
  is_running, push_connected, get_client_running, server_get_client, enlist, visit, list_clients,
  list_running, server_get_all,
}

module _ (L : Type 0) where
  deref_server-IsStill : IsStill {L = L} deref_server
  deref_server-IsStill = looking-IsStill _ λ w.
      if-IsStill (w.server == 0) _ _ (raise-IsStill L Server fault)
        (gets-IsStill λ v. v.server_object)

  client_at-IsStill : (s : Server) (i : ℤ) → IsStill {L = L} (client_at s i)
  client_at-IsStill s (pos i) = or_raise-IsStill L (get_client s i) fault
  client_at-IsStill s (negsuc i) = raise-IsStill L ℕ fault

module _ (L : Type 0) ⦃host : Host L⦄ where
  push_connected-IsStill : (index : ℤ) → IsStill {L = L} (push_connected index)
  unfolding push_connected
  push_connected-IsStill index = bind-IsStill _ _ (deref_server-IsStill L) λ s.
      bind-IsStill _ _ (client_at-IsStill L s index) λ p.
        bind-IsStill _ _ (is_connected_at-IsStill L p)
          λ connected. then-IsStill _ _ (push_client-IsStill L _) (pure-IsStill L 1)

  get_client_running-IsStill : IsStill {L = L} get_client_running
  unfolding get_client_running
  get_client_running-IsStill =
      bind-IsStill _ _ (gets-IsStill λ w. host.check_number (pos 1) w.lua) λ n.
        bind-IsStill _ _ (or_raise-IsStill L n (lua_error bad_argument)) λ index.
          bind-IsStill _ _ (deref_server-IsStill L) λ s.
            if-IsStill (leb_ℤ (pos (get_client_count s)) (cast_int index)) _ _ (pure-IsStill L 0)
              (push_connected-IsStill (cast_int index))

  pub server_get_client-IsStill : IsStill {L = L} server_get_client
  unfolding server_get_client
  server_get_client-IsStill =
      looking-IsStill _
        λ w. if-IsStill (not (is_running w)) _ _ (pure-IsStill L 0) get_client_running-IsStill

  enlist-IsStill : (index p : ℕ) → IsStill {L = L} (enlist index p)
  unfolding enlist
  enlist-IsStill index p = then-IsStill _ _ (lua_do-IsStill _) (
      then-IsStill _ _ (push_client-IsStill L p)
        (then-IsStill _ _ (lua_do-IsStill _) (pure-IsStill L (suc index))))

  visit-IsStill : (index p : ℕ) → IsStill {L = L} (visit index p)
  unfolding visit
  visit-IsStill index p =
      bind-IsStill _ _ (read_client-IsStill L p)
        λ c. if-IsStill (not (is_connected c)) _ _ (pure-IsStill L index) (enlist-IsStill index p)

  list_clients-IsStill : (index : ℕ) (ps : List ℕ) → IsStill {L = L} (list_clients index ps)
  unfolding list_clients
  list_clients-IsStill index [] = pure-IsStill L index
  list_clients-IsStill index (p ∷ ps) =
      bind-IsStill _ _ (visit-IsStill index p) (λ next. list_clients-IsStill next ps)

  pub server_get_all-IsStill : IsStill {L = L} server_get_all
  unfolding server_get_all list_running
  server_get_all-IsStill = then-IsStill _ _ (lua_do-IsStill _) (
      looking-IsStill _ λ w. if-IsStill (not (is_running w)) _ _ (pure-IsStill L 1) (
        bind-IsStill _ _ (deref_server-IsStill L)
          λ s. then-IsStill _ _ (list_clients-IsStill 0 s.clients) (pure-IsStill L 1)))

  -- Whatever state it is called in, and whether it returns, raises a Lua error or faults, what Lua
  -- code calls to look at the clients leaves the server, every client and every net channel as they
  -- were: `GetClient` and `GetAll` of the library, and of the methods those that read a property,
  -- `GetName`, `GetSteamID`, `IsValid`, `GetTable`, `__tostring`, `__index` and `__newindex`. So does
  -- `Delete_CBaseClient`.
  pub looking-IsUntouched :
      (w : World L) (f : Client → ℤ) (g : Client → Bool) (var : ℕ)
      → IsUntouched w (server_get_client w).1
        × IsUntouched w (server_get_all w).1
        × IsUntouched w (push_number_of f w).1
        × IsUntouched w (push_bool_of g w).1
        × IsUntouched w (client_get_name w).1
        × IsUntouched w (client_get_steam_id w).1
        × IsUntouched w (client_is_valid w).1
        × IsUntouched w (client_get_table w).1
        × IsUntouched w (client_to_string w).1
        × IsUntouched w (client_index w).1
        × IsUntouched w (client_new_index w).1
        × IsUntouched w (delete_client var w).1
  unfolding IsStill
  looking-IsUntouched w f g var = (
    server_get_client-IsStill w,
    server_get_all-IsStill w,
    push_number_of-IsStill L f w,
    push_bool_of-IsStill L g w,
    client_get_name-IsStill L w,
    client_get_steam_id-IsStill L w,
    client_is_valid-IsStill L w,
    client_get_table-IsStill L w,
    client_to_string-IsStill L w,
    client_index-IsStill L w,
    client_new_index-IsStill L w,
    delete_client-IsStill L var w,
  )
