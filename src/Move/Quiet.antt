-- ===== src/Move/Quiet.antt =====
-- What the move asks of the engine so that the Lua stack and the plugin stay in order.
use gmod_queue.Base.{ℕ, ℤ, ◌≡◌, refl, ◌∙◌, Bool, true, String, List}
use gmod_queue.Engine.Client.{Client}
use gmod_queue.Engine.NetChan.{NetChan}
use gmod_queue.Engine.ServerInfo.{ServerInfo}
use gmod_queue.World.State.{World, Note}
use gmod_queue.World.Host.{Host}
use gmod_queue.Hooks.Callback.{IsReady}

-- From one state to another the Lua stack is as high, and the plugin stays in order, on its thread.
pub record IsQuiet {L : Type 0} ⦃host : Host L⦄ (w w' : World L) : Type 0 where
  pub level : host.top w'.lua ≡ host.top w.lua
  pub ready : IsReady w → IsReady w'
  pub up : w.lua_set ≡ true → w'.lua_set ≡ true
  pub thread : w'.main_thread ≡ w.main_thread

module _ {L : Type 0} ⦃host : Host L⦄ where
  pub IsQuiet-trans : {u v w : World L} → IsQuiet u v → IsQuiet v w → IsQuiet u w
  IsQuiet-trans p q = record {
    level = q.level ∙ p.level;
    ready = λ r. q.ready (p.ready r);
    up = λ s. q.up (p.up s);
    thread = q.thread ∙ p.thread;
  }

  -- Only objects of the engine and the log have changed.
  pub objects-IsQuiet :
      (w : World L) (c : ℕ → Client) (notes : List Note)
      → IsQuiet w (record w { client = c; notes = notes })
  objects-IsQuiet w c notes = record {
    level = refl;
    ready = λ r.
        let reg = r.registry in
        record {
          registry = record { keys = reg.keys; started = reg.started; boxed = reg.boxed };
          typed = r.typed;
        };
    up = λ s. s;
    thread = refl;
  }

  pub channels-IsQuiet : (w : World L) (c : ℕ → NetChan) → IsQuiet w (record w { channel = c })
  channels-IsQuiet w c = record {
    level = refl;
    ready = λ r.
        let reg = r.registry in
        record {
          registry = record { keys = reg.keys; started = reg.started; boxed = reg.boxed };
          typed = r.typed;
        };
    up = λ s. s;
    thread = refl;
  }

-- The engine's functions that the move calls return with the Lua stack as they found it, and change
-- the plugin's globals only through the plugin.
pub record QuietLaws {L : Type 0} (host : Host L) : Type 0 where
  pub inactivate_quiet : (p : ℕ) (w : World L) → IsQuiet ⦃host = host⦄ w (host.inactivate p w)
  pub clear_quiet : (p : ℕ) (w : World L) → IsQuiet ⦃host = host⦄ w (host.clear p w)
  pub connect_quiet :
      (p : ℕ) (n : String) (u : ℤ) (chan : ℕ) (fake : Bool) (challenge : ℤ) (w : World L)
      → IsQuiet ⦃host = host⦄ w (host.connect p n u chan fake challenge w)
  pub set_name_quiet :
      (p : ℕ) (n : String) (w : World L) → IsQuiet ⦃host = host⦄ w (host.set_name p n w)
  pub reconnect_quiet : (p : ℕ) (w : World L) → IsQuiet ⦃host = host⦄ w (host.reconnect p w)
  pub send_net_msg_quiet :
      (p : ℕ) (info : ServerInfo) (reliable : Bool) (w : World L)
      → IsQuiet ⦃host = host⦄ w (host.send_net_msg p info reliable w)
  pub fill_server_info_quiet :
      (p : ℕ) (info : ServerInfo) (w : World L)
      → IsQuiet ⦃host = host⦄ w (host.fill_server_info p info w).1
