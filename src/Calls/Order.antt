-- ===== src/Calls/Order.antt =====
-- What an action ensures: from a state that meets a condition it never faults; a Lua error leaves the
-- plugin in order; and if it returns, its result and the state meet another condition.
use gmod_queue.Base.{
  ℕ, ◌≡◌, refl, ◌≢◌, ==-ne, Bool, true, false, not, String, Option, none, some, if◌then◌else◌, List,
}
use gmod_queue.World.State.{World, Note}
use gmod_queue.World.Host.{Host}
use gmod_queue.World.Monad.{
  Action, Result, ok, err, lua_error, fault, pure, raise, gets, call, continue, or_raise, modify,
  note, ◌>>=◌, ◌>>◌,
}
use gmod_queue.World.Memory.{read_client}
use gmod_queue.World.Interp.{lua_do, lua_call}
use gmod_queue.Hooks.Callback.{IsReady, lua-IsReady}

pub not-false : (b : Bool) → not b ≡ false → b ≡ true
not-false true e = refl
not-false false e = cc

-- The plugin is ready, its interpreter is there, and its main thread runs.
pub record InOrder {L : Type 0} ⦃host : Host L⦄ (w : World L) : Type 0 where
  pub ready : IsReady w
  pub up : w.lua_set ≡ true
  pub thread : w.main_thread ≡ true

module _ {L : Type 0} ⦃host : Host L⦄ where
  -- The outcome of an action that may raise an error, but not fault.
  unfoldable pub Ends : {A : Type 0} → (A → World L → Type 0) → Result A × World L → Type 0
  Ends Q (ok a, w) = Q a w
  Ends Q (err (lua_error s), w) = InOrder w
  Ends Q (err fault, w) = ⊥

  pub record Ensures {A : Type 0} (P : World L → Type 0) (m : Action L A) (Q : A → World L → Type 0)
      : Type 0 where
    pub at : (w : World L) → P w → Ends Q (m w)

  -- Of an action that only has to find the plugin in order and leave it so.
  abbrev pub Keeps : {A : Type 0} → Action L A → Type 0
  Keeps m = Ensures InOrder m (λ _. InOrder)

  pub lua-InOrder : (w : World L) (l : L) → InOrder w → InOrder (record w { lua = l })
  lua-InOrder w l o = record {
    ready = lua-IsReady w l w.notes o.ready;
    up = o.up;
    thread = o.thread;
  }

  pub note-InOrder : (w : World L) (ns : List Note) → InOrder w → InOrder (record w { notes = ns })
  note-InOrder w ns o = record {
    ready = lua-IsReady w w.lua ns o.ready;
    up = o.up;
    thread = o.thread;
  }

module _ {L : Type 0} ⦃host : Host L⦄ {A : Type 0} where
  pub Ensures-pure :
      (P : World L → Type 0) (a : A) (Q : A → World L → Type 0)
      → ((w : World L) → P w → Q a w)
      → Ensures P (pure a) Q
  unfolding Ends
  Ensures-pure P a Q h = record { at = h }

  pub Keeps-pure : (a : A) → Keeps {L = L} (pure a)
  unfolding Ends
  Keeps-pure a = record { at = λ w o. o }

  pub Keeps-raise : (s : String) → Keeps {L = L} {A = A} (raise (lua_error s))
  unfolding Ends
  Keeps-raise s = record { at = λ w o. o }

  pub Keeps-gets : (f : World L → A) → Keeps (gets f)
  unfolding Ends
  Keeps-gets f = record { at = λ w o. o }

  pub Keeps-or_raise : (o : Option A) (s : String) → Keeps {L = L} (or_raise o (lua_error s))
  Keeps-or_raise none s = Keeps-raise s
  Keeps-or_raise (some a) s = Keeps-pure a

  pub Keeps-lua_call : (f : L → A × L) → Keeps (lua_call f)
  unfolding Ends
  Keeps-lua_call f = record { at = λ w o. lua-InOrder w (f w.lua).1 o }

  -- A call of the engine that keeps the plugin in order.
  pub Keeps-call :
      (f : World L → A × World L) → ((w : World L) → InOrder w → InOrder (f w).1) → Keeps (call f)
  unfolding Ends
  Keeps-call f h = record { at = h }

  pub Ensures-if :
      (P : World L → Type 0) (b : Bool) (m n : Action L A) (Q : A → World L → Type 0)
      → (b ≡ true → Ensures P m Q)
      → (b ≡ false → Ensures P n Q)
      → Ensures P (if b then m else n) Q
  Ensures-if P true m n Q first second = first refl
  Ensures-if P false m n Q first second = second refl

  pub Keeps-if : (b : Bool) (m n : Action L A) → Keeps m → Keeps n → Keeps (if b then m else n)
  Keeps-if true m n first second = first
  Keeps-if false m n first second = second

  -- An action that first looks at the state.
  pub Ensures-looking :
      (P : World L → Type 0) (f : World L → Action L A) (Q : A → World L → Type 0)
      → ((w : World L) → Ensures (λ v. P v × (v ≡ w)) (f w) Q)
      → Ensures P (λ w. f w w) Q
  Ensures-looking P f Q each = record { at = λ w p. (each w).at w (p, refl) }

  pub Ensures-before :
      (P R : World L → Type 0) (m : Action L A) (Q : A → World L → Type 0)
      → ((w : World L) → P w → R w)
      → Ensures R m Q
      → Ensures P m Q
  Ensures-before P R m Q weaker ensures = record { at = λ w p. ensures.at w (weaker w p) }

  -- A part of the condition that is not about the state is a fact.
  pub Ensures-given :
      (P : World L → Type 0) (F : Type 0) (m : Action L A) (Q : A → World L → Type 0)
      → (F → Ensures P m Q)
      → Ensures (λ w. P w × F) m Q
  Ensures-given P F m Q ensures = record { at = λ w (p, f). (ensures f).at w p }

module _ {L : Type 0} ⦃host : Host L⦄ where
  pub Ensures-bind :
      {A B : Type 0} {P : World L → Type 0} {m : Action L A} {Q : A → World L → Type 0}
      {f : A → Action L B} {R : B → World L → Type 0}
      → Ensures P m Q
      → ((a : A) → Ensures (Q a) (f a) R)
      → Ensures P (m >>= f) R
  unfolding Ends ◌>>=◌
  Ensures-bind {A} {B} {P} {m} {Q} {f} {R} first rest = record {
    at = λ w p. continued (m w) (first.at w p);
  }
    where
      continued : (x : Result A × World L) → Ends Q x → Ends R (continue f x)
      continued (ok a, v) q = (rest a).at v q
      continued (err (lua_error s), v) q = q
      continued (err fault, v) q = elim q [ ]

  pub Ensures-then :
      {A B : Type 0} {P Q : World L → Type 0} {m : Action L A} {n : Action L B}
      {R : B → World L → Type 0}
      → Ensures P m (λ _. Q)
      → Ensures Q n R
      → Ensures P (m >> n) R
  Ensures-then first rest = Ensures-bind first (λ _. rest)

  pub Keeps-modify :
      (f : World L → World L) → ((w : World L) → InOrder w → InOrder (f w)) → Keeps (modify f)
  unfolding Ends
  Keeps-modify f h = record { at = h }

  pub Keeps-note : (n : Note) → Keeps {L = L} (note n)
  Keeps-note n = Keeps-modify _ (λ w o. note-InOrder w _ o)

  pub Keeps-lua_do : (f : L → L) → Keeps (lua_do f)
  Keeps-lua_do f = Keeps-modify _ (λ w o. lua-InOrder w (f w.lua) o)

  pub Keeps-read_client : (p : ℕ) → p ≢ 0 → Keeps {L = L} (read_client p)
  unfolding Ends
  Keeps-read_client p real = record { at = λ w o. rw (==-ne p 0 real) o }
