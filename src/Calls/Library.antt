-- ===== src/Calls/Library.antt =====
-- What `gameserver_GetClient` and `gameserver_GetAll` (source/queue.cpp) ensure for a caller from Lua.
use gmod_queue.Base.{
  ℕ, suc, ℤ, pos, negsuc, ◌≡◌, refl, sym, ap, ◌∙◌, ◌≢◌, cast_int, inl, inr, ==_iff, ==-ne, not,
  Bool-cases, true, false, none, some, Option-cases, List, [], ◌∷◌, All, get_elem?, if◌then◌else◌,
}
use gmod_queue.Engine.Client.{is_connected}
use gmod_queue.Engine.Server.{is_server_active}
use gmod_queue.World.State.{World}
use gmod_queue.World.Host.{Host}
use gmod_queue.World.Laws.{StackLaws, ReferenceLaws}
use gmod_queue.World.Monad.{ok, err, lua_error, pure, or_raise, >>=-ok, >>=-err, if_then, if_else}
use gmod_queue.World.Interp.{lua_do, lua_get}
use gmod_queue.Util.{deref_server}
use gmod_queue.ClientApi.{bad_argument}
use gmod_queue.GameServer.{
  is_running, get_client_running, server_get_client, enlist, visit, list_clients, list_running,
  server_get_all,
}
use gmod_queue.GameServer.Clients.{Looked, server_get_client-outcome}
use gmod_queue.Calls.Order.{
  InOrder, Ends, Ensures, Keeps, lua-InOrder, Ensures-pure, Ensures-before, not-false, Keeps-pure,
  Ensures-if, Keeps-if, Ensures-given, Ensures-bind, Ensures-then, Ensures-looking, Keeps-lua_do,
  Keeps-read_client,
}
use gmod_queue.Calls.Handles.{Ends-ok, Ends-raised, push_client-Keeps}

-- No client of the server's list is NULL.
abbrev pub IsListed : {L : Type 0} → World L → Type 0
IsListed w = (j p : ℕ) → get_elem? w.server_object.clients j ≡ some p → p ≢ 0

every_real : (ps : List ℕ) → ((j p : ℕ) → get_elem? ps j ≡ some p → p ≢ 0) → All (λ p. p ≢ 0) ps
every_real [] real = tt
every_real (p ∷ ps) real = (real 0 p refl, every_real ps (λ j. real (suc j)))

running-known : {L : Type 0} (w : World L) → is_running w ≡ true → w.server ≢ 0
running-known w running null = cc (
  running,
  ap (λ b. if b then false else is_server_active w.server_object) ((==_iff w.server 0).1 null),
)

module _ {L : Type 0} ⦃host : Host L⦄ where
  -- A call of `GetAll`.
  pub record AsksAll (w : World L) : Type 0 where
    pub order : InOrder w
    pub listed : IsListed w

  -- A call of `GetClient`: the number, if there is one, is not negative as an `int`.
  pub record AsksClient (w : World L) : Type 0 where
    pub order : InOrder w
    pub listed : IsListed w
    pub positive :
        (n : ℤ) (i : ℕ) → host.check_number (pos 1) w.lua ≡ some n → cast_int n ≢ negsuc i

module _ (L : Type 0) ⦃host : Host L⦄ (stack : StackLaws host.lua_api)
    (laws : ReferenceLaws host.lua_api) where
  not_running : (w : World L) → is_running w ≡ false → server_get_client w ≡ (ok 0, w)
  unfolding server_get_client
  not_running w off = if_then (pure 0) get_client_running w (ap not off)

  no_number :
      (w : World L)
      → is_running w ≡ true
      → host.check_number (pos 1) w.lua ≡ none
      → server_get_client w ≡ (err (lua_error bad_argument), w)
  unfolding server_get_client get_client_running
  no_number w on missing =
      if_else (pure 0) _ w (ap not on)
      ∙ (>>=-ok (lua_get (host.check_number (pos 1))) _ refl
          ∙ >>=-err (or_raise (host.check_number (pos 1) w.lua) (lua_error bad_argument)) _
              (ap (λ o. or_raise o (lua_error bad_argument) w) missing))

  answered :
      (w : World L) (i : ℕ) → InOrder w → Looked w i → Ends (λ _. InOrder) (server_get_client w)
  answered w i o (inl (_, ran)) = Ends-ok _ _ 0 w ran o
  answered w i o (inr (p, _, w', _, ran, pushes, _)) = Ends-ok _ _ 1 w' ran (record {
    ready = record {
      registry = pushes.registry;
      typed = λ e. o.ready.typed (sym pushes.same_type ∙ e);
    };
    up = pushes.live;
    thread = pushes.same_thread ∙ o.thread;
  })

  numbered :
      (w : World L) (index : ℤ)
      → AsksClient w
      → is_running w ≡ true
      → host.check_number (pos 1) w.lua ≡ some index
      → Ends (λ _. InOrder) (server_get_client w)
  numbered w index asks on given =
      elim (server_get_client-outcome stack laws w index asks.order.ready asks.order.up
        (running-known w on) on given asks.listed) [
          | inl (i, negative, _) ↦ absurd (asks.positive index i given negative)
          | inr (i, _, looked) ↦ answered w i asks.order looked
        ]

  pub server_get_client-Ensures : Ensures {L = L} AsksClient server_get_client (λ _. InOrder)
  server_get_client-Ensures = record {
    at = λ w asks. elim (Bool-cases (is_running w)) [
      | inr off ↦ Ends-ok _ _ 0 w (not_running w off) asks.order
      | inl on ↦ elim (Option-cases (host.check_number (pos 1) w.lua)) [
        | inl missing ↦ Ends-raised _ _ bad_argument w (no_number w on missing) asks.order
        | inr (index, given) ↦ numbered w index asks on given
      ]
    ];
  }

  list_clients-Keeps :
      (index : ℕ) (ps : List ℕ) → All (λ p. p ≢ 0) ps → Keeps {L = L} (list_clients index ps)
  unfolding list_clients visit enlist
  list_clients-Keeps index [] real = Keeps-pure index
  list_clients-Keeps index (p ∷ ps) real =
      Ensures-bind
        (Ensures-bind (Keeps-read_client p real.0) λ c.
          Keeps-if (not (is_connected c)) _ _ (Keeps-pure index) (
            Ensures-then (Keeps-lua_do _) (
              Ensures-then (push_client-Keeps L stack laws p)
                (Ensures-then (Keeps-lua_do _) (Keeps-pure (suc index))))))
        (λ next. list_clients-Keeps next ps real.1)

  read_server :
      Ensures {L = L}
        (λ v. AsksAll v × (is_running v ≡ true))
        deref_server
        (λ s w. InOrder w × All (λ p. p ≢ 0) s.clients)
  unfolding Ends
  read_server = record {
    at = λ w (asks, on).
        rw (==-ne w.server 0 (running-known w on))
          (asks.order, every_real w.server_object.clients asks.listed);
  }

  table_made : Ensures {L = L} AsksAll (lua_do host.create_table) (λ _. AsksAll)
  unfolding Ends
  table_made = record {
    at = λ w asks. record { order = lua-InOrder w _ asks.order; listed = asks.listed };
  }

  server_get_all_running :
      (w : World L)
      → not (is_running w) ≡ false
      → Ensures {L = L} (λ v. AsksAll v × (v ≡ w)) list_running (λ _. InOrder)
  unfolding list_running
  server_get_all_running w on =
      Ensures-bind
        (Ensures-before _ _ _ _
          (λ v (asks, same). (asks, ap is_running same ∙ not-false (is_running w) on)) read_server)
        λ s.
          Ensures-given InOrder (All (λ p. p ≢ 0) s.clients) _ _
            λ real. Ensures-then (list_clients-Keeps 0 s.clients real) (Keeps-pure 1)

  pub server_get_all-Ensures : Ensures {L = L} AsksAll server_get_all (λ _. InOrder)
  unfolding server_get_all
  server_get_all-Ensures = Ensures-then {Q = AsksAll} table_made (
      Ensures-looking AsksAll _ _ λ w.
        Ensures-if _ (not (is_running w)) _ _ _
          (λ _. Ensures-pure _ 1 _ (λ v (asks, _). asks.order)) (server_get_all_running w))
