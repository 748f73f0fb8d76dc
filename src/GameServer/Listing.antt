-- ===== src/GameServer/Listing.antt =====
-- `gameserver_GetAll`: which clients it lists, and at which indices.
use mathlib.Core.Path.{subst}
use gmod_queue.Base.{
  ℕ, suc, ◌+◌, pos, negsuc, ◌≡◌, refl, sym, ap, ◌∙◌, ◌≢◌, ◌⊎◌, inl, inr, ◌==◌, ==_iff, ==→ne, ==-ne,
  not, Bool-cases, true, false, some, List, [], ◌∷◌, arith, All, lookup, if◌then◌else◌,
}
use gmod_queue.Engine.Client.{is_connected}
use gmod_queue.World.State.{World}
use gmod_queue.World.Host.{Host}
use gmod_queue.World.Laws.{StackLaws, ReferenceLaws}
use gmod_queue.World.Monad.{ok, pure, >>=-ok, if_then, if_else, ◌>>=◌}
use gmod_queue.World.Memory.{read_client, read_client-ok}
use gmod_queue.World.Interp.{lua_do}
use gmod_queue.Util.{deref_server}
use gmod_queue.UserData.{push_client}
use gmod_queue.UserData.Push.{IsPushed}
use gmod_queue.UserData.Once.{push_client-IsPushed}
use gmod_queue.Hooks.Callback.{IsReady, lua-IsReady}
use gmod_queue.GameServer.{enlist, visit, list_clients, list_running, server_get_all, is_running}

abbrev pub IsRegistered : {L : Type 0} → ℕ → World L → Type 0
IsRegistered p w = (u : ℕ) × (lookup p w.pushed ≡ some u)

-- What the loop writes from an index on: of each connected client, in the list's order, the next
-- index, then the client as `Push_CBaseClient` pushes it, and both go into the table below; of a
-- client that is not connected, nothing.
unfoldable pub IsListing : {L : Type 0} → ⦃host : Host L⦄ → ℕ → List ℕ → World L → World L → Type 0
IsListing index [] w w' = w' ≡ w
IsListing {L} ⦃host⦄ index (p ∷ ps) w w' =
    ((is_connected (w.client p) ≡ false) × IsListing index ps w w')
    ⊎ ((is_connected (w.client p) ≡ true)
        × (x : World L) × (push_client p
              (record w { lua = host.push_number (pos (suc index)) w.lua })
            ≡ (ok tt, x))
        × IsListing (suc index) ps (record x { lua = host.raw_set (negsuc 2) x.lua }) w')

-- What a part of the loop leaves: the plugin ready, the clients as they were, the stack as high as
-- it was, and no client taken out of the registry.
pub record IsStep {L : Type 0} ⦃host : Host L⦄ (w w' : World L) : Type 0 where
  pub ready : IsReady w'
  pub up : w'.lua_set ≡ true
  pub clients : w'.client ≡ w.client
  pub level : host.top w'.lua ≡ host.top w.lua
  pub keeps : (j : ℕ) → IsRegistered j w → IsRegistered j w'

module _ {L : Type 0} ⦃host : Host L⦄ (stack : StackLaws host.lua_api)
    (laws : ReferenceLaws host.lua_api) where
  still_known :
      (c : ℕ) (w w' : World L)
      → c ≢ 0
      → IsPushed c w w'
      → (j : ℕ) → IsRegistered j w
      → IsRegistered j w'
  still_known c w w' real pushes j (u, known) = elim (Bool-cases (j == c)) [
    | inl same ↦
        let at : j ≡ c = (==_iff j c).0 same in
        let (v, found) = pushes.registered real in (v, ap (λ k. lookup k w'.pushed) at ∙ found)
    | inr other ↦ (u, pushes.others j (==→ne j c other) ∙ known)
  ]

  -- A connected client is put into the table.
  enlist-IsStep :
      (index p : ℕ) (w : World L)
      → IsReady w
      → w.lua_set ≡ true
      → p ≢ 0
      → (x : World L) × (push_client p (record w { lua = host.push_number (pos (suc index)) w.lua })
          ≡ (ok tt, x))
        × (enlist index p w ≡ (ok (suc index), record x { lua = host.raw_set (negsuc 2) x.lua }))
        × IsStep w (record x { lua = host.raw_set (negsuc 2) x.lua })
        × IsRegistered p (record x { lua = host.raw_set (negsuc 2) x.lua })
  unfolding enlist
  enlist-IsStep index p w ready set real =
      let numbered : World L = record w { lua = host.push_number (pos (suc index)) w.lua } in
      let fine = lua-IsReady w numbered.lua w.notes ready in
      let (x, ran, pushes, grown) =
        push_client-IsPushed stack laws numbered p fine.registry fine.typed set in
      let stored : L = host.raw_set (negsuc 2) x.lua in
      let typed =
        λ (e : x.client_type_id ≡ host.type_nil). ready.typed (sym pushes.same_type ∙ e) in
      (
        x,
        ran,
        >>=-ok (lua_do (host.push_number (pos (suc index)))) _ refl
            ∙ (>>=-ok (push_client p) _ ran
                ∙ >>=-ok (lua_do (host.raw_set (negsuc 2))) (λ _. pure (suc index)) {w = x} refl),
        record {
          ready =
              lua-IsReady x stored x.notes (record { registry = pushes.registry; typed = typed });
          up = pushes.live;
          clients = pushes.same_clients;
          level = omega (
            arith,
            stack.push_number_top (pos (suc index)) w.lua,
            grown,
            stack.raw_set_top (negsuc 2) x.lua,
          );
          keeps = still_known p numbered x real pushes;
        },
        pushes.registered real,
      )

  -- Any client of the list: it is listed exactly if it is connected.
  visit-IsStep :
      (index p : ℕ) (w : World L)
      → IsReady w
      → w.lua_set ≡ true
      → p ≢ 0
      → ((is_connected (w.client p) ≡ false) × (visit index p w ≡ (ok index, w)))
        ⊎ ((is_connected (w.client p) ≡ true)
            × (x : World L) × (push_client p
                  (record w { lua = host.push_number (pos (suc index)) w.lua })
                ≡ (ok tt, x))
            × (visit index p w ≡ (ok (suc index), record x { lua = host.raw_set (negsuc 2) x.lua }))
            × IsStep w (record x { lua = host.raw_set (negsuc 2) x.lua })
            × IsRegistered p (record x { lua = host.raw_set (negsuc 2) x.lua }))
  unfolding visit
  visit-IsStep index p w ready set real =
      let start =
        >>=-ok (read_client p) (λ c. if not (is_connected c) then pure index else enlist index p)
          {w = w} (read_client-ok w p real) in
      elim (Bool-cases (is_connected (w.client p))) [
        | inl on ↦
            let (x, pushed, ran, step, listed) = enlist-IsStep index p w ready set real in
            inr (on, x, pushed, start ∙ if_else (pure index) _ w (ap not on) ∙ ran, step, listed)
        | inr off ↦ inl (off, start ∙ if_then (pure index) (enlist index p) w (ap not off))
      ]

  -- The loop over a list of client objects returns, and has put the connected ones of the list into
  -- the table; all of these are registered then. The stack is as high as before, the plugin is ready,
  -- and no client left the registry.
  pub list_clients-IsListed :
      (ps : List ℕ) (index : ℕ) (w : World L)
      → IsReady w
      → w.lua_set ≡ true
      → All (λ p. p ≢ 0) ps
      → (n : ℕ) × (w' : World L) × (list_clients index ps w ≡ (ok n, w'))
        × IsListing index ps w w'
        × IsStep w w'
        × All (λ p. is_connected (w.client p) ≡ true → IsRegistered p w') ps
  unfolding list_clients IsListing
  list_clients-IsListed [] index w ready set real = (
    index,
    w,
    refl,
    refl,
    record { ready = ready; up = set; clients = refl; level = refl; keeps = λ j k. k },
    tt,
  )
  list_clients-IsListed (p ∷ ps) index w ready set real =
      elim (visit-IsStep index p w ready set real.0) [
        | inl (off, visited) ↦
            let (n, w', ran, made, rest, others) =
              list_clients-IsListed ps index w ready set real.1 in
            (
              n,
              w',
              >>=-ok (visit index p) (λ k. list_clients k ps) {w = w} visited ∙ ran,
              inl (off, made),
              rest,
              ((λ on. cc), others),
            )
        | inr (on, x, pushed, visited, step, listed) ↦
            let next : World L = record x { lua = host.raw_set (negsuc 2) x.lua } in
            let (n, w', ran, made, rest, others) =
              list_clients-IsListed ps (suc index) next step.ready step.up real.1 in
            (
              n,
              w',
              >>=-ok (visit index p) (λ k. list_clients k ps) {w = w} visited ∙ ran,
              inr (on, x, pushed, made),
              record {
                ready = rest.ready;
                up = rest.up;
                clients = rest.clients ∙ step.clients;
                level = rest.level ∙ step.level;
                keeps = λ j k. rest.keeps j (step.keeps j k);
              },
              (
                (λ _. rest.keeps p listed),
                subst (λ c. All (λ q. is_connected (c q) ≡ true → IsRegistered q w') ps)
                    step.clients others,
              ),
            )
      ]

  -- With Lua and the server up, the plugin ready and no NULL in the client list, `GetAll` creates a
  -- table and returns it, the one value more on the stack, with the connected clients of the list at
  -- the indices from 1 on, in the list's order and without gaps, each as `Push_CBaseClient` pushes it,
  -- and nothing of the others. Every connected client of the list is registered then, the plugin is
  -- ready, and no client left the registry.
  pub server_get_all-outcome :
      (w : World L)
      → IsReady w
      → w.lua_set ≡ true
      → w.server ≢ 0
      → is_running w ≡ true
      → All (λ p. p ≢ 0) w.server_object.clients
      → (w' : World L) × (server_get_all w ≡ (ok 1, w'))
        × IsListing 0 w.server_object.clients (record w { lua = host.create_table w.lua }) w'
        × IsReady w'
        × (host.top w'.lua ≡ host.top w.lua + 1)
        × ((j : ℕ) → IsRegistered j w → IsRegistered j w')
        × All (λ p. is_connected (w.client p) ≡ true → IsRegistered p w') w.server_object.clients
  unfolding server_get_all list_running
  server_get_all-outcome w ready set known running real =
      let v : World L = record w { lua = host.create_table w.lua } in
      let (n, w', ran, made, step, listed) =
        list_clients-IsListed w.server_object.clients 0 v (lua-IsReady w v.lua w.notes ready) set
          real in
      (
        w',
        >>=-ok (lua_do host.create_table)
              (λ _ u. (if not (is_running u) then pure 1 else list_running) u) {w = w} refl
            ∙ (if_else (pure 1) list_running v (ap not running)
                ∙ (>>=-ok deref_server (λ s. list_clients 0 s.clients >>= λ _. pure 1) {w = v}
                      (if_else {b = v.server == 0} _ _ v (==-ne v.server 0 known))
                    ∙ >>=-ok (list_clients 0 w.server_object.clients) (λ _. pure 1) {w = v} ran)),
        made,
        step.ready,
        step.level ∙ stack.create_table_top w.lua,
        step.keeps,
        listed,
      )
