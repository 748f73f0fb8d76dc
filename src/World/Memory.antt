-- ===== src/World/Memory.antt =====
-- Reads and writes through pointers: address 0 is NULL.
use gmod_queue.Base.{◌≡◌, ◌≢◌, ==-ne, ℕ, ⊤, not, if◌then◌else◌, ◌==◌, none, some, update}
use gmod_queue.Engine.Client.{Client}
use gmod_queue.Engine.NetChan.{NetChan}
use gmod_queue.World.State.{World, UserData}
use gmod_queue.World.Monad.{Action, ok, raise, fault, gets, modify, or_raise, require}

module _ {L : Type 0} where
  abbrev pub deref : ℕ → Action L ⊤
  deref p = require (not (p == 0))

  abbrev pub read_client : ℕ → Action L Client
  read_client p w = (if p == 0 then raise fault else gets (λ v. v.client p)) w

  abbrev pub store_client : ℕ → Client → World L → World L
  store_client p c w = record w { client = update w.client p c }

  abbrev pub change_client : ℕ → (Client → Client) → Action L ⊤
  change_client p f w =
      (if p == 0 then raise fault else modify (λ v. store_client p (f (v.client p)) v)) w

  abbrev pub change_channel : ℕ → (NetChan → NetChan) → Action L ⊤
  change_channel p f w =
      (if p == 0
          then raise fault
          else modify (λ v. record v { channel = update v.channel p (f (v.channel p)) }))
        w

  -- A `LuaUserData` that was freed, or never allocated, faults.
  abbrev pub read_user_data : ℕ → Action L UserData
  read_user_data p w = or_raise (w.user_data p) fault w

  abbrev pub write_user_data : ℕ → UserData → Action L ⊤
  write_user_data p d = modify λ w. record w { user_data = update w.user_data p (some d) }

  abbrev pub free_user_data : ℕ → Action L ⊤
  free_user_data p = modify λ w. record w { user_data = update w.user_data p none }

  pub deref-ok : (w : World L) (p : ℕ) → p ≢ 0 → deref p w ≡ (ok tt, w)
  deref-ok w p real = rw (==-ne p 0 real)

  pub read_user_data-ok :
      (w : World L) (p : ℕ) (d : UserData) → w.user_data p ≡ some d → read_user_data p w ≡ (ok d, w)
  read_user_data-ok w p d e = rw e

  pub read_client-ok : (w : World L) (p : ℕ) → p ≢ 0 → read_client p w ≡ (ok (w.client p), w)
  read_client-ok w p real = rw (==-ne p 0 real)
