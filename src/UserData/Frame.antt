-- ===== src/UserData/Frame.antt =====
-- The registry's functions leave the engine's objects alone, whatever they end in.
use gmod_queue.Base.{
  ℕ, ℤ, minus_one, ◌==◌, Bool, true, not, ◌&&◌, Option, none, some, eqb_ℤ, insert, erase, lookup,
}
use gmod_queue.World.State.{UserData}
use gmod_queue.World.Host.{Host}
use gmod_queue.World.Interp.{lua_do, lua_get, lua_call, g_lua_do, g_lua_get, g_lua_call}
use gmod_queue.World.Frame.{
  IsStill, pure-IsStill, raise-IsStill, gets-IsStill, looking-IsStill, then-IsStill, bind-IsStill,
  if-IsStill, lua_do-IsStill, lua_call-IsStill, note-IsStill, write_user_data-IsStill,
  free_user_data-IsStill, set_pushed-IsStill, through-IsStill, read_user_data-IsStill,
  own-IsUntouched,
}
use gmod_queue.UserData.{
  new_user_data, init, create_reference, push_new, push_found, push_client, release_reference,
  release_table, destroy, delete_found, delete_client, check_box, get_client_data, get_client,
}

module _ {L : Type 0} where
  pub g_lua_do-IsStill : (f : L → L) → IsStill (g_lua_do f)
  g_lua_do-IsStill f = through-IsStill (lua_do f) (lua_do-IsStill f)

  pub g_lua_get-IsStill : {A : Type 0} (f : L → A) → IsStill (g_lua_get f)
  g_lua_get-IsStill f = through-IsStill (lua_get f) (gets-IsStill _)

  pub g_lua_call-IsStill : {A : Type 0} (f : L → A × L) → IsStill (g_lua_call f)
  g_lua_call-IsStill f = through-IsStill (lua_call f) (lua_call-IsStill f)

module _ (L : Type 0) ⦃host : Host L⦄ where
  check_box-IsStill : (u : ℕ) (raises : Bool) → IsStill {L = L} (check_box u raises)
  unfolding check_box
  check_box-IsStill u raises =
      bind-IsStill _ _
        (if-IsStill (u == 0) _ _ (pure-IsStill L true)
          (bind-IsStill _ _ (read_user_data-IsStill L u) (λ d. pure-IsStill L (d.object == 0))))
        (λ null. if-IsStill (null && raises) _ _ (raise-IsStill L ℕ _) (pure-IsStill L u))

  pub get_client_data-IsStill :
      (position : ℤ) (raises : Bool) → IsStill {L = L} (get_client_data position raises)
  unfolding get_client_data
  get_client_data-IsStill position raises =
      bind-IsStill _ _ (gets-IsStill λ w. w.client_type_id) λ t.
        bind-IsStill _ _ (g_lua_get-IsStill (host.get_type position)) λ found.
          if-IsStill (not (eqb_ℤ found t)) _ _
            (if-IsStill raises _ _ (raise-IsStill L ℕ _) (pure-IsStill L 0))
            (bind-IsStill _ _ (g_lua_get-IsStill (host.get_user_type position t))
              (λ u. check_box-IsStill u raises))

  pub get_client-IsStill :
      (position : ℤ) (raises : Bool) → IsStill {L = L} (get_client position raises)
  unfolding get_client
  get_client-IsStill position raises =
      bind-IsStill _ _ (get_client_data-IsStill position raises) λ u.
        if-IsStill (u == 0) _ _ (pure-IsStill L 0)
          (bind-IsStill _ _ (read_user_data-IsStill L u) (λ d. pure-IsStill L d.object))

  init-IsStill : (u : ℕ) → IsStill {L = L} (init u)
  unfolding init
  init-IsStill u = bind-IsStill _ _ (read_user_data-IsStill L u) λ d.
      if-IsStill (eqb_ℤ d.table_reference minus_one) _ _
        (then-IsStill _ _ (g_lua_do-IsStill _)
          (bind-IsStill _ _ (g_lua_call-IsStill _) (λ r. write_user_data-IsStill L u _)))
        (pure-IsStill L tt)

  create_reference-IsStill : (u : ℕ) → IsStill {L = L} (create_reference u)
  unfolding create_reference
  create_reference-IsStill u = bind-IsStill _ _ (read_user_data-IsStill L u) λ d.
      then-IsStill _ _
        (if-IsStill (eqb_ℤ d.reference minus_one) _ _ (pure-IsStill L tt) (note-IsStill L _))
        (then-IsStill _ _ (g_lua_do-IsStill _)
          (bind-IsStill _ _ (g_lua_call-IsStill _) (λ r. write_user_data-IsStill L u _)))

  new_user_data-IsStill : (object : ℕ) → IsStill {L = L} (new_user_data object)
  unfolding new_user_data IsStill
  new_user_data-IsStill object w = own-IsUntouched w _ _ _ _ _

  push_new-IsStill : (var : ℕ) → IsStill {L = L} (push_new var)
  unfolding push_new
  push_new-IsStill var = bind-IsStill _ _ (new_user_data-IsStill var) λ u.
      bind-IsStill _ _ (gets-IsStill λ w. w.client_type_id) λ t.
        then-IsStill _ _ (g_lua_do-IsStill _) (
          then-IsStill _ _ (init-IsStill u)
            (then-IsStill _ _ (create_reference-IsStill u) (set_pushed-IsStill L (insert var u))))

  push_found-IsStill : (var : ℕ) (o : Option ℕ) → IsStill {L = L} (push_found var o)
  unfolding push_found
  push_found-IsStill var (some u) =
      bind-IsStill _ _ (read_user_data-IsStill L u) (λ _. g_lua_do-IsStill _)
  push_found-IsStill var none = push_new-IsStill var

  pub push_client-IsStill : (var : ℕ) → IsStill {L = L} (push_client var)
  unfolding push_client
  push_client-IsStill var = looking-IsStill _ λ w.
      if-IsStill (var == 0) _ _ (g_lua_do-IsStill _) (push_found-IsStill var (lookup var w.pushed))

  release_reference-IsStill : (d : UserData) → IsStill {L = L} (release_reference d)
  unfolding release_reference
  release_reference-IsStill d = looking-IsStill _ λ w.
      if-IsStill (not (eqb_ℤ d.reference minus_one) && w.lua_set) _ _
        (then-IsStill _ _ (g_lua_do-IsStill _) (
          then-IsStill _ _ (g_lua_do-IsStill _)
            (then-IsStill _ _ (g_lua_do-IsStill _) (g_lua_do-IsStill _))))
        (pure-IsStill L tt)

  release_table-IsStill : (d : UserData) → IsStill {L = L} (release_table d)
  unfolding release_table
  release_table-IsStill d = looking-IsStill _ λ w.
      if-IsStill (not (eqb_ℤ d.table_reference minus_one) && w.lua_set) _ _ (g_lua_do-IsStill _)
        (pure-IsStill L tt)

  destroy-IsStill : (u : ℕ) → IsStill {L = L} (destroy u)
  unfolding destroy
  destroy-IsStill u = looking-IsStill _ λ w.
      if-IsStill w.main_thread _ _
        (bind-IsStill _ _ (read_user_data-IsStill L u) λ d.
          then-IsStill _ _ (release_reference-IsStill d)
            (then-IsStill _ _ (release_table-IsStill d) (write_user_data-IsStill L u _)))
        (note-IsStill L _)

  delete_found-IsStill : (var : ℕ) (o : Option ℕ) → IsStill {L = L} (delete_found var o)
  unfolding delete_found
  delete_found-IsStill var none = pure-IsStill L tt
  delete_found-IsStill var (some u) =
      then-IsStill _ _ (destroy-IsStill u)
        (then-IsStill _ _ (free_user_data-IsStill L u) (set_pushed-IsStill L (erase var)))

  pub delete_client-IsStill : (var : ℕ) → IsStill {L = L} (delete_client var)
  unfolding delete_client
  delete_client-IsStill var = looking-IsStill _ λ w. delete_found-IsStill var (lookup var w.pushed)
