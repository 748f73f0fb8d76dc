-- ===== src/Entries/Session.antt =====
-- A session: entries into the plugin in any order, and what Lua and the engine do in between.
use mathlib.Core.Path.{subst}
use gmod_queue.Base.{ℕ, ⊤, ◌≡◌, ◌≢◌}
use gmod_queue.Engine.Client.{Client}
use gmod_queue.Engine.NetChan.{NetChan}
use gmod_queue.Engine.Server.{Server}
use gmod_queue.World.State.{World}
use gmod_queue.World.Host.{Host}
use gmod_queue.World.Monad.{err, fault}
use gmod_queue.Calls.Order.{InOrder, lua-InOrder}
use gmod_queue.Entries.{Entry, enter}
use gmod_queue.Entries.Safe.{HostLaws, EntryNeeds, enter-IsSafe}

-- Lua code computes on its own, and the engine changes its server, clients and channels as it likes.
pub data Session {L : Type 0} ⦃host : Host L⦄ : World L → World L → Type 0 where
  over : {w : World L} → Session w w
  entered :
      {w v w' : World L} (e : Entry)
      → EntryNeeds e w
      → (enter e w).1 ≡ v
      → Session v w'
      → Session w w'
  computed : {w v w' : World L} (l : L) → record w { lua = l } ≡ v → Session v w' → Session w w'
  engine_ran :
      {w v w' : World L} (server : Server) (client : ℕ → Client) (channel : ℕ → NetChan)
      → record w { server_object = server; client = client; channel = channel } ≡ v
      → Session v w'
      → Session w w'

module _ {L : Type 0} ⦃host : Host L⦄ where
  -- No entry of the session faulted.
  unfoldable pub IsFaultless : {w w' : World L} → Session w w' → Type 0
  IsFaultless over = ⊤
  IsFaultless (entered {w = w} e needs ran rest) = ((enter e w).0 ≢ err fault) × IsFaultless rest
  IsFaultless (computed l ran rest) = IsFaultless rest
  IsFaultless (engine_ran server client channel ran rest) = IsFaultless rest

  engine-InOrder :
      (w : World L) (server : Server) (client : ℕ → Client) (channel : ℕ → NetChan)
      → InOrder w
      → InOrder (record w { server_object = server; client = client; channel = channel })
  engine-InOrder w server client channel o =
      let reg = o.ready.registry in
      record {
        ready = record {
          registry = record { keys = reg.keys; started = reg.started; boxed = reg.boxed };
          typed = o.ready.typed;
        };
        up = o.up;
        thread = o.thread;
      }

  -- Whatever calls from Lua and detours there are, in whatever order, and whatever Lua code and the engine do to their
  -- own state in between: from a state in which the plugin is in order, no entry faults and the
  -- plugin is in order in the end, if each entry finds what it needs.
  pub Session-IsFaultless :
      HostLaws host → {w w' : World L} (s : Session w w') → InOrder w → IsFaultless s × InOrder w'
  unfolding IsFaultless
  Session-IsFaultless laws over o = (tt, o)
  Session-IsFaultless laws (entered {w = w} e needs ran rest) o =
      let (safe, kept) = enter-IsSafe laws e w o needs in
      let (clean, end) = Session-IsFaultless laws rest (subst InOrder ran kept) in
      ((safe, clean), end)
  Session-IsFaultless laws (computed {w = w} l ran rest) o =
      Session-IsFaultless laws rest (subst InOrder ran (lua-InOrder w l o))
  Session-IsFaultless laws (engine_ran {w = w} server client channel ran rest) o =
      Session-IsFaultless laws rest (subst InOrder ran (engine-InOrder w server client channel o))
