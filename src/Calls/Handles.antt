-- ===== src/Calls/Handles.antt =====
-- What the registry's functions (source/util.h) ensure for a caller from Lua.
use mathlib.Core.Path.{subst}
use gmod_queue.Base.{
  ℕ, ℤ, pos, ◌≡◌, sym, ap, ◌∙◌, ◌≢◌, inl, inr, ◌==◌, ==_iff, ==→ne, Bool-cases, true, false, some,
  String, minus_one, update, update_self, update-ne,
}
use gmod_queue.World.State.{World, UserData}
use gmod_queue.World.Host.{Host}
use gmod_queue.World.Laws.{StackLaws, ReferenceLaws}
use gmod_queue.World.Monad.{Result, ok, err, lua_error}
use gmod_queue.World.Memory.{read_user_data, read_user_data-ok}
use gmod_queue.UserData.{push_client, get_client, get_client_data}
use gmod_queue.UserData.Registry.{IsBox, IsRegistry}
use gmod_queue.UserData.Once.{push_client-IsPushed}
use gmod_queue.ClientApi.Handle.{IsHandle, right_type, get_client-outcome}
use gmod_queue.Calls.Order.{InOrder, Ends, Ensures, Keeps}

module _ {L : Type 0} ⦃host : Host L⦄ where
  -- A call from Lua finds the plugin in order; its first argument, if it is of the clients' type,
  -- holds NULL or an allocated box.
  pub record Called (w : World L) : Type 0 where
    pub order : InOrder w
    pub handle : right_type (pos 1) w ≡ true → IsHandle (pos 1) w

  -- The box at an address is allocated and is this one.
  pub record Boxed (u : ℕ) (d : UserData) (w : World L) : Type 0 where
    pub order : InOrder w
    pub allocated : w.user_data u ≡ some d

  -- The box of a client that is there.
  pub record Live (u : ℕ) (w : World L) : Type 0 where
    pub order : InOrder w
    pub box : UserData
    pub allocated : w.user_data u ≡ some box
    pub live : box.object ≢ 0

  pub Ends-ok :
      {A : Type 0} (Q : A → World L → Type 0) (x : Result A × World L) (a : A) (w : World L)
      → x ≡ (ok a, w)
      → Q a w
      → Ends Q x
  unfolding Ends
  Ends-ok Q x a w e q = subst (Ends Q) (sym e) q

  pub Ends-raised :
      {A : Type 0} (Q : A → World L → Type 0) (x : Result A × World L) (s : String) (w : World L)
      → x ≡ (err (lua_error s), w)
      → InOrder w
      → Ends Q x
  unfolding Ends
  Ends-raised Q x s w e o = subst (Ends Q) (sym e) o

module _ (L : Type 0) ⦃host : Host L⦄ where
  -- Asked to raise, the check of the first argument yields a live client.
  pub get_client-Ensures :
      Ensures {L = L} Called (get_client (pos 1) true) (λ p w. InOrder w × (p ≢ 0))
  get_client-Ensures = record {
    at = λ w called. elim (get_client-outcome (pos 1) w called.order.up true called.handle) [
      | inl (u, d, (_, _, _, _, live), _, given) ↦ Ends-ok _ _ d.object w given (called.order, live)
      | inr (inl (_, _, s, _, given)) ↦ Ends-raised _ _ s w given called.order
      | inr (inr (_, impossible, _)) ↦ cc
    ];
  }

  pub get_client_data-Ensures : Ensures {L = L} Called (get_client_data (pos 1) true) Live
  get_client_data-Ensures = record {
    at = λ w called. elim (get_client-outcome (pos 1) w called.order.up true called.handle) [
      | inl (u, d, (_, _, _, allocated, live), given, _) ↦
          Ends-ok _ _ u w given
            (record { order = called.order; box = d; allocated = allocated; live = live })
      | inr (inl (_, _, s, given, _)) ↦ Ends-raised _ _ s w given called.order
      | inr (inr (_, impossible, _)) ↦ cc
    ];
  }

  -- Not asked to, it yields some client or NULL.
  pub get_client-Keeps : Ensures {L = L} Called (get_client (pos 1) false) (λ _. InOrder)
  get_client-Keeps = record {
    at = λ w called. elim (get_client-outcome (pos 1) w called.order.up false called.handle) [
      | inl (u, d, _, _, given) ↦ Ends-ok _ _ d.object w given called.order
      | inr (inl (_, impossible, _, _, _)) ↦ cc
      | inr (inr (_, _, given)) ↦ Ends-ok _ _ 0 w given called.order
    ];
  }

  pub read-Live-Ensures :
      (u : ℕ) → Ensures {L = L} (Live u) (read_user_data u) (λ d w. Boxed u d w × (d.object ≢ 0))
  read-Live-Ensures u = record {
    at = λ w l.
        Ends-ok _ _ l.box w (read_user_data-ok w u l.box l.allocated)
          (record { order = l.order; allocated = l.allocated }, l.live);
  }

  pub read-Boxed-Ensures :
      (u : ℕ) (d : UserData) → Ensures {L = L} (Boxed u d) (read_user_data u) (λ _. InOrder)
  read-Boxed-Ensures u d = record {
    at = λ w b. Ends-ok _ _ d w (read_user_data-ok w u d b.allocated) b.order;
  }

  module _ (stack : StackLaws host.lua_api) (laws : ReferenceLaws host.lua_api) where
    pub push_client-Keeps : (c : ℕ) → Keeps {L = L} (push_client c)
    push_client-Keeps c = record {
      at = λ w o.
          let (x, ran, pushes, _) =
            push_client-IsPushed stack laws w c o.ready.registry o.ready.typed o.up in
          Ends-ok _ _ tt x ran (record {
            ready = record {
              registry = pushes.registry;
              typed = λ e. o.ready.typed (sym pushes.same_type ∙ e);
            };
            up = pushes.live;
            thread = pushes.same_thread ∙ o.thread;
          });
    }

-- A box with another table for another player is as good as it was.
module _ {L : Type 0} (w : World L) (u : ℕ) (d : UserData) (r id : ℤ)
    (allocated : w.user_data u ≡ some d) (valid : r ≢ minus_one) where
  abbrev pub retabled : UserData
  retabled = record d { table_reference = r; additional_data = id }

  retabled-IsBox :
      (c v : ℕ) (e : UserData)
      → IsBox w.user_data w.next_user_data c v e
      → (f : UserData) × IsBox (update w.user_data u (some retabled)) w.next_user_data c v f
  retabled-IsBox c v e b = elim (Bool-cases (u == v)) [
    | inl at ↦
        let same : u ≡ v = (==_iff u v).0 at in
        let shared : some d ≡ some e = sym allocated ∙ ap w.user_data same ∙ b.allocated in
        let one : d ≡ e = cc in
        (
          retabled,
          record {
            allocated =
                ap (update w.user_data u (some retabled)) (sym same)
                ∙ update_self w.user_data u (some retabled);
            below = b.below;
            real = b.real;
            boxes = ap (λ x. x.object) one ∙ b.boxes;
            referenced = λ none_left. b.referenced (ap (λ x. x.reference) (sym one) ∙ none_left);
            tabled = valid;
          },
        )
    | inr off ↦ (
      e,
      record {
        allocated = update-ne w.user_data u v (some retabled) (==→ne u v off) ∙ b.allocated;
        below = b.below;
        real = b.real;
        boxes = b.boxes;
        referenced = b.referenced;
        tabled = b.tabled;
      },
    )
  ]

  pub retabled-IsRegistry :
      IsRegistry w → IsRegistry (record w { user_data = update w.user_data u (some retabled) })
  retabled-IsRegistry reg = record {
    keys = reg.keys;
    started = reg.started;
    boxed = λ c v known. let (e, b) = reg.boxed c v known in retabled-IsBox c v e b;
  }
