-- ===== src/World/Frame.antt =====
-- Actions that leave the engine's objects alone, whatever they end in.
use gmod_queue.Base.{
  ℕ, ◌≡◌, refl, ◌∙◌, Bool, true, false, Option, none, some, List, ◌∷◌, update, ◌==◌, if◌then◌else◌,
}
use gmod_queue.World.State.{World, UserData, Note}
use gmod_queue.World.Monad.{
  Action, Error, Result, ok, err, fault, pure, raise, gets, continue, or_raise, modify, note, ◌>>=◌,
  ◌>>◌,
}
use gmod_queue.World.Memory.{read_client, read_user_data, write_user_data, free_user_data}
use gmod_queue.World.Interp.{lua_do, lua_call, through_g_lua}

-- The server, every client and every net channel are the same.
pub record IsUntouched {L : Type 0} (w w' : World L) : Type 0 where
  pub same_server : w'.server ≡ w.server
  pub same_object : w'.server_object ≡ w.server_object
  pub same_client : w'.client ≡ w.client
  pub same_channel : w'.channel ≡ w.channel

pub IsUntouched-trans :
    {L : Type 0} {u v w : World L} → IsUntouched u v → IsUntouched v w → IsUntouched u w
IsUntouched-trans p q = record {
  same_server = q.same_server ∙ p.same_server;
  same_object = q.same_object ∙ p.same_object;
  same_client = q.same_client ∙ p.same_client;
  same_channel = q.same_channel ∙ p.same_channel;
}

module _ {L : Type 0} where
  -- Shut, so that a block is taken apart by the shape of its code.
  unfoldable pub IsStill : {A : Type 0} → Action L A → Type 0
  IsStill m = (w : World L) → IsUntouched w (m w).1

  pub same : (w : World L) → IsUntouched w w
  same w = record {
    same_server = refl;
    same_object = refl;
    same_client = refl;
    same_channel = refl;
  }

  pub gets-IsStill : {A : Type 0} (f : World L → A) → IsStill (gets f)
  unfolding IsStill
  gets-IsStill f = same

  pub bind-IsStill :
      {A B : Type 0} (m : Action L A) (f : A → Action L B)
      → IsStill m
      → ((a : A) → IsStill (f a))
      → IsStill (m >>= f)
  unfolding IsStill ◌>>=◌
  bind-IsStill {A} {B} m f first rest w = IsUntouched-trans (first w) (continued (m w))
    where
      continued : (x : Result A × World L) → IsUntouched x.1 (continue f x).1
      continued (ok a, v) = rest a v
      continued (err e, v) = same v

  -- An action that first looks at the state.
  pub looking-IsStill :
      {A : Type 0} (f : World L → Action L A)
      → ((w : World L) → IsStill (f w))
      → IsStill (λ w. f w w)
  unfolding IsStill
  looking-IsStill f each w = each w w

  pub then-IsStill :
      {A B : Type 0} (m : Action L A) (n : Action L B) → IsStill m → IsStill n → IsStill (m >> n)
  then-IsStill m n first rest = bind-IsStill m (λ _. n) first (λ _. rest)

  pub if-IsStill :
      {A : Type 0} (b : Bool) (m n : Action L A)
      → IsStill m
      → IsStill n
      → IsStill (if b then m else n)
  unfolding IsStill
  if-IsStill true m n first second = first
  if-IsStill false m n first second = second

  -- Another state of the interpreter, and of the plugin's own boxes, registry and log.
  pub own-IsUntouched :
      (w : World L) (lua : L) (boxes : ℕ → Option UserData) (next : ℕ) (pushed : List (ℕ × ℕ))
      (notes : List Note)
      → IsUntouched w (record w {
        lua = lua;
        user_data = boxes;
        next_user_data = next;
        pushed = pushed;
        notes = notes;
      })
  own-IsUntouched w lua boxes next pushed notes = record {
    same_server = refl;
    same_object = refl;
    same_client = refl;
    same_channel = refl;
  }

  pub lua_do-IsStill : (f : L → L) → IsStill (lua_do f)
  unfolding IsStill
  lua_do-IsStill f w = own-IsUntouched w (f w.lua) w.user_data w.next_user_data w.pushed w.notes

  pub lua_call-IsStill : {A : Type 0} (f : L → A × L) → IsStill (lua_call f)
  unfolding IsStill
  lua_call-IsStill f w = own-IsUntouched w (f w.lua).1 w.user_data w.next_user_data w.pushed w.notes

  pub through-IsStill : {A : Type 0} (m : Action L A) → IsStill m → IsStill (through_g_lua m)
  unfolding IsStill
  through-IsStill m first w = if-IsStill w.lua_set m (raise fault) first same w

module _ (L : Type 0) where
  pub pure-IsStill : {A : Type 0} (a : A) → IsStill {L = L} (pure a)
  unfolding IsStill
  pure-IsStill a = same

  pub raise-IsStill : (A : Type 0) (e : Error) → IsStill {L = L} {A = A} (raise e)
  unfolding IsStill
  raise-IsStill A e = same

  pub or_raise-IsStill : {A : Type 0} (o : Option A) (e : Error) → IsStill {L = L} (or_raise o e)
  unfolding IsStill
  or_raise-IsStill none e = same
  or_raise-IsStill (some a) e = same

  pub note-IsStill : (n : Note) → IsStill {L = L} (note n)
  unfolding IsStill
  note-IsStill n w = own-IsUntouched w w.lua w.user_data w.next_user_data w.pushed (n ∷ w.notes)

  pub write_user_data-IsStill : (u : ℕ) (d : UserData) → IsStill {L = L} (write_user_data u d)
  unfolding IsStill
  write_user_data-IsStill u d w =
      own-IsUntouched w w.lua (update w.user_data u (some d)) w.next_user_data w.pushed w.notes

  pub free_user_data-IsStill : (u : ℕ) → IsStill {L = L} (free_user_data u)
  unfolding IsStill
  free_user_data-IsStill u w =
      own-IsUntouched w w.lua (update w.user_data u none) w.next_user_data w.pushed w.notes

  pub set_pushed-IsStill :
      (f : List (ℕ × ℕ) → List (ℕ × ℕ))
      → IsStill {L = L} (modify λ w. record w { pushed = f w.pushed })
  unfolding IsStill
  set_pushed-IsStill f w = own-IsUntouched w w.lua w.user_data w.next_user_data (f w.pushed) w.notes

  pub read_client-IsStill : (p : ℕ) → IsStill {L = L} (read_client p)
  unfolding IsStill
  read_client-IsStill p = if-IsStill (p == 0) (raise fault) (gets λ w. w.client p) same same

  pub read_user_data-IsStill : (u : ℕ) → IsStill {L = L} (read_user_data u)
  unfolding IsStill
  read_user_data-IsStill u w = or_raise-IsStill (w.user_data u) fault w
