-- ===== src/Entries/Safe.antt =====
-- No way into the plugin leads to a fault, and each leaves the plugin in order.
use mathlib.Core.Path.{subst}
use gmod_queue.Base.{⊤, ◌≡◌, refl, sym, ◌≢◌}
use gmod_queue.World.State.{World}
use gmod_queue.World.Host.{Host}
use gmod_queue.World.Laws.{StackLaws, ReferenceLaws}
use gmod_queue.World.Monad.{Action, pure, ◌>>◌}
use gmod_queue.Hooks.Callback.{CallbackLaws}
use gmod_queue.Move.EngineLaws.{EngineLaws}
use gmod_queue.Move.Quiet.{QuietLaws}
use gmod_queue.Seating.Hall.{HallLaws}
use gmod_queue.Calls.{run_call}
use gmod_queue.Calls.Order.{InOrder, Ends, Keeps-pure, Ensures-then}
use gmod_queue.Calls.Fields.{LookupLaws}
use gmod_queue.Calls.Engine.{OrderLaws, hook_set_signon_state-Keeps}
use gmod_queue.Calls.Safe.{Needs, IsSafe, Ends-IsSafe, run_call-Ends}
use gmod_queue.Hooks.{hook_get_player_limit}
use gmod_queue.Entries.{
  Entry, from_lua, set_signon_state, fill_server_info, notify_client_disconnect, spawn_player,
  enter, get_player_limit,
}
use gmod_queue.Entries.Detours.{
  AsksSpawn, hook_fill_server_info-Keeps, hook_notify_client_disconnect-Keeps, spawn_player-Ends,
}

-- What the code outside the repository is relied on for.
pub record HostLaws {L : Type 0} (host : Host L) : Type 0 where
  pub stack : StackLaws host.lua_api
  pub references : ReferenceLaws host.lua_api
  pub lookup : LookupLaws host.lua_api
  pub callback : CallbackLaws host
  pub order : OrderLaws host
  pub quiet : QuietLaws host
  pub engine : EngineLaws host
  pub hall : HallLaws host

module _ {L : Type 0} ⦃host : Host L⦄ where
  -- What an entry needs beside a plugin that is in order.
  abbrev pub EntryNeeds : Entry → World L → Type 0
  EntryNeeds (from_lua c) w = Needs c w
  EntryNeeds (set_signon_state p state spawncount) w = ⊤
  EntryNeeds (fill_server_info server info) w = ⊤
  EntryNeeds (notify_client_disconnect steam p) w = p ≢ 0
  EntryNeeds (spawn_player p) w = AsksSpawn L p w
  EntryNeeds (get_player_limit limit) w = ⊤

  discarded :
      {A : Type 0} (m : Action L A) (w : World L)
      → Ends (λ _. InOrder) (m w)
      → Ends (λ _. InOrder) ((do m; pure tt) w)
  discarded m w ends =
      (Ensures-then {P = λ v. v ≡ w} {Q = InOrder}
          (record { at = λ v same. subst (λ u. Ends (λ _. InOrder) (m u)) (sym same) ends })
          (Keeps-pure tt)).at
        w refl

  module _ (laws : HostLaws host) where
    enter-Ends :
        (e : Entry) (w : World L) → InOrder w → EntryNeeds e w → Ends (λ _. InOrder) (enter e w)
    enter-Ends (from_lua c) w o needs =
        discarded (run_call c) w (
          run_call-Ends laws.stack laws.references laws.lookup laws.callback laws.order c w o needs)
    enter-Ends (set_signon_state p state spawncount) w o needs = discarded _ w (
        (hook_set_signon_state-Keeps L laws.stack laws.references laws.callback laws.order p state
            spawncount).at
          w o)
    enter-Ends (fill_server_info server info) w o needs =
        discarded _ w ((hook_fill_server_info-Keeps L laws.quiet server info).at w o)
    enter-Ends (notify_client_disconnect steam p) w o needs =
        (hook_notify_client_disconnect-Keeps L laws.stack laws.references laws.callback laws.order
            steam p needs).at
          w o
    enter-Ends (spawn_player p) w o needs =
        spawn_player-Ends L laws.stack laws.callback laws.quiet laws.engine laws.hall p w o needs
    enter-Ends (get_player_limit limit) w o needs =
        discarded (pure (hook_get_player_limit limit)) w ((Keeps-pure _).at w o)

    -- With the plugin in order, no call from Lua and none of the five detours faults: it returns, or
    -- raises a Lua error; and it leaves the plugin in order. This asks of a method's caller that its
    -- first argument, if it is of the clients' type, holds NULL or an allocated box; of a caller of
    -- the library that no client of the server's list is NULL, and of one of `GetClient` that the
    -- number is not negative once it is cast to an `int`; of a disconnection that there is a client; and of a spawn that the
    -- client is signing on, on an open server.
    pub enter-IsSafe : (e : Entry) (w : World L) → InOrder w → EntryNeeds e w → IsSafe (enter e w)
    enter-IsSafe e w o needs = Ends-IsSafe (enter e w) (enter-Ends e w o needs)
