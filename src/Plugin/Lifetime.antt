-- ===== src/Plugin/Lifetime.antt =====
-- The plugin's life: `Load`, `ServerActivate` and `LevelShutdown`.
use gmod_queue.Base.{ℕ, pos, ◌≡◌, refl, ◌==◌, inl, inr, Bool-cases, true, false, arith}
use gmod_queue.World.State.{World}
use gmod_queue.World.Host.{Host}
use gmod_queue.World.Monad.{err, fault, ◌>>=◌}
use gmod_queue.Util.{add_detour}
use gmod_queue.Plugin.{
  Plugin, Realm, no_shared, no_interface, found, server_activate, level_shutdown, queue_init_lua,
  load_lua,
}

-- The plugin object as its constructor leaves it.
abbrev pub fresh : Plugin
fresh = record { client_command_index = pos 0; has_realm = false; lua_init = false }

-- `lua_init` says that the plugin has its interpreter.
abbrev pub IsSound : {L : Type 0} → Plugin → World L → Type 0
IsSound p w = p.lua_init ≡ true → (w.lua_set ≡ true) × (p.has_realm ≡ true)

pub server_activate-IsSound :
    {L : Type 0} (realm : Realm) (p : Plugin) (w : World L)
    → IsSound p w
    → IsSound (server_activate realm p w).0 (server_activate realm p w).1
unfolding server_activate
server_activate-IsSound no_shared p w sound = ground arith
server_activate-IsSound no_interface p w sound = ground arith
server_activate-IsSound found p w sound = ground arith

pub level_shutdown-IsSound :
    {L : Type 0} (p : Plugin) (w : World L)
    → IsSound p w
    → IsSound (level_shutdown p w).0 (level_shutdown p w).1
unfolding level_shutdown
level_shutdown-IsSound p w sound = ground arith

module _ {L : Type 0} ⦃host : Host L⦄ where
  -- `Load` faults in `Queue::Init` while `g_Lua` is NULL, as it is before the first
  -- `ServerActivate`, whatever server the engine has.
  pub load_lua_faults :
      (server : ℕ) (w : World L) → w.lua_set ≡ false → (load_lua server w).0 ≡ err fault
  unfolding load_lua add_detour queue_init_lua ◌>>=◌
  load_lua_faults server w unset = elim (Bool-cases (server == 0)) [
    | inl null ↦ rw (null, unset) refl
    | inr known ↦ rw (known, unset) refl
  ]
