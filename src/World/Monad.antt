-- ===== src/World/Monad.antt =====
-- A function of the plugin: it returns, raises a Lua error (which unwinds and leaves the state as
-- it is), or faults, as a read through a null or dangling pointer does.
use gmod_queue.Base.{◌≡◌, ap, if◌then◌else◌, ⊤, Bool, true, false, String, Option, none, some, ◌∷◌}
use gmod_queue.World.State.{World, Note}

pub data Error : Type 0 where
  lua_error : String → Error
  fault : Error

pub data Result (A : Type 0) : Type 0 where
  ok : A → Result A
  err : Error → Result A

abbrev pub Action : Type 0 → Type 0 → Type 0
Action L A = World L → Result A × World L

module _ {L A : Type 0} where
  abbrev pub pure : A → Action L A
  pure a w = (ok a, w)

  abbrev pub raise : Error → Action L A
  raise e w = (err e, w)

  abbrev pub gets : (World L → A) → Action L A
  gets f w = (ok (f w), w)

  abbrev pub or_raise : Option A → Error → Action L A
  or_raise none e = raise e
  or_raise (some a) _ = pure a

  -- A call that returns a value and the state after it.
  abbrev pub call : (World L → A × World L) → Action L A
  call f w = let (a, w') = f w in (ok a, w')

module _ {L : Type 0} where
  abbrev pub continue : {A B : Type 0} → (A → Action L B) → Result A × World L → Result B × World L
  continue f (ok a, w) = f a w
  continue f (err e, w) = (err e, w)

  -- Shut, so that a proof runs a block step by step, by `>>=-ok`.
  infixl 5 ◌>>=◌ ◌>>◌
  unfoldable pub ◌>>=◌ : {A B : Type 0} → Action L A → (A → Action L B) → Action L B
  ◌>>=◌ m f w = continue f (m w)

  abbrev pub ◌>>◌ : {A B : Type 0} → Action L A → Action L B → Action L B
  m >> k = m >>= λ _. k

  abbrev pub modify : (World L → World L) → Action L ⊤
  modify f w = (ok tt, f w)

  abbrev pub note : Note → Action L ⊤
  note n = modify λ w. record w { notes = n ∷ w.notes }

  abbrev pub require : Bool → Action L ⊤
  require true = pure tt
  require false = raise fault

-- A step that returns hands its value and state on: the rule by which a block is run.
pub >>=-ok :
    {L A B : Type 0} (m : Action L A) (f : A → Action L B) {w w' : World L} {a : A}
    → m w ≡ (ok a, w')
    → (m >>= f) w ≡ f a w'
unfolding ◌>>=◌
>>=-ok m f e = ap (continue f) e

-- A step that does not return ends the block.
pub >>=-err :
    {L A B : Type 0} (m : Action L A) (f : A → Action L B) {w w' : World L} {x : Error}
    → m w ≡ (err x, w')
    → (m >>= f) w ≡ (err x, w')
unfolding ◌>>=◌
>>=-err m f e = ap (continue f) e

-- A branch taken, with the state left as it is.
module _ {L A : Type 0} {b : Bool} (m n : Action L A) (w : World L) where
  pub if_then : b ≡ true → (if b then m else n) w ≡ m w
  if_then e = ap (λ t. (if t then m else n) w) e

  pub if_else : b ≡ false → (if b then m else n) w ≡ n w
  if_else e = ap (λ t. (if t then m else n) w) e
