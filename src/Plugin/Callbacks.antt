-- ===== src/Plugin/Callbacks.antt =====
-- The callbacks of `CServerPlugin` that the engine makes while the plugin is loaded, in any order.
use gmod_queue.Base.{ℤ, ◌≡◌, refl, ◌∙◌, true, List, [], ◌∷◌, arith}
use gmod_queue.World.State.{World}
use gmod_queue.Plugin.{
  Plugin, Realm, no_shared, no_interface, found, server_activate, level_shutdown,
  set_command_client,
}
use gmod_queue.Plugin.Lifetime.{IsSound, server_activate-IsSound, level_shutdown-IsSound}

-- What a callback tells the engine; the plugin never overrides or stops one.
pub data PluginResult : Type 0 where
  plugin_continue plugin_override plugin_stop : PluginResult

-- The callbacks, with the arguments that they do not ignore. `ServerActivate` comes with what
-- `Lua::GetRealm` finds then.
pub data Callback : Type 0 where
  on_pause on_unpause on_level_init on_game_frame on_level_shutdown : Callback
  on_server_activate : Realm → Callback
  on_client_active on_client_disconnect on_client_put_in_server : Callback
  on_set_command_client : ℤ → Callback
  on_client_settings_changed on_client_connect on_client_command : Callback
  on_network_id_validated on_query_cvar_value_finished : Callback
  on_edict_allocated on_edict_freed : Callback

-- The answer of the callbacks that have one.
abbrev pub answer : Callback → PluginResult
answer c = plugin_continue

module _ {L : Type 0} where
  -- What one callback does.
  unfoldable pub handle : Callback → Plugin × World L → Plugin × World L
  handle on_pause s = s
  handle on_unpause s = s
  handle on_level_init s = s
  handle on_game_frame s = s
  handle on_level_shutdown s = level_shutdown s.0 s.1
  handle (on_server_activate realm) s = server_activate realm s.0 s.1
  handle on_client_active s = s
  handle on_client_disconnect s = s
  handle on_client_put_in_server s = s
  handle (on_set_command_client index) s = (set_command_client index s.0, s.1)
  handle on_client_settings_changed s = s
  handle on_client_connect s = s
  handle on_client_command s = s
  handle on_network_id_validated s = s
  handle on_query_cvar_value_finished s = s
  handle on_edict_allocated s = s
  handle on_edict_freed s = s

  unfoldable pub handle_all : List Callback → Plugin × World L → Plugin × World L
  handle_all [] s = s
  handle_all (c ∷ cs) s = handle_all cs (handle c s)

  -- What every callback leaves: the registry, its boxes and the clients as they were, and `g_Lua`
  -- set if it was.
  pub record IsKept (v w : World L) : Type 0 where
    pub pushed : w.pushed ≡ v.pushed
    pub user_data : w.user_data ≡ v.user_data
    pub client : w.client ≡ v.client
    pub up : v.lua_set ≡ true → w.lua_set ≡ true

  level_shutdown-IsKept : (p : Plugin) (w : World L) → IsKept w (level_shutdown p w).1
  unfolding level_shutdown
  level_shutdown-IsKept p w = record {
    pushed = ground arith;
    user_data = ground arith;
    client = ground arith;
    up = ground arith;
  }

  server_activate-IsKept :
      (realm : Realm) (p : Plugin) (w : World L) → IsKept w (server_activate realm p w).1
  unfolding server_activate
  server_activate-IsKept no_shared p w = record {
    pushed = ground arith;
    user_data = ground arith;
    client = ground arith;
    up = ground arith;
  }
  server_activate-IsKept no_interface p w = record {
    pushed = ground arith;
    user_data = ground arith;
    client = ground arith;
    up = ground arith;
  }
  server_activate-IsKept found p w = record {
    pushed = ground arith;
    user_data = ground arith;
    client = ground arith;
    up = ground arith;
  }

  untouched : (w : World L) → IsKept w w
  untouched w = record { pushed = refl; user_data = refl; client = refl; up = λ s. s }

  handle-IsKept :
      (c : Callback) (p : Plugin) (w : World L)
      → IsSound p w
      → IsSound (handle c (p, w)).0 (handle c (p, w)).1 × IsKept w (handle c (p, w)).1
  unfolding handle
  handle-IsKept on_pause p w sound = (sound, untouched w)
  handle-IsKept on_unpause p w sound = (sound, untouched w)
  handle-IsKept on_level_init p w sound = (sound, untouched w)
  handle-IsKept on_game_frame p w sound = (sound, untouched w)
  handle-IsKept on_level_shutdown p w sound =
      (level_shutdown-IsSound p w sound, level_shutdown-IsKept p w)
  handle-IsKept (on_server_activate realm) p w sound =
      (server_activate-IsSound realm p w sound, server_activate-IsKept realm p w)
  handle-IsKept on_client_active p w sound = (sound, untouched w)
  handle-IsKept on_client_disconnect p w sound = (sound, untouched w)
  handle-IsKept on_client_put_in_server p w sound = (sound, untouched w)
  handle-IsKept (on_set_command_client index) p w sound = (sound, untouched w)
  handle-IsKept on_client_settings_changed p w sound = (sound, untouched w)
  handle-IsKept on_client_connect p w sound = (sound, untouched w)
  handle-IsKept on_client_command p w sound = (sound, untouched w)
  handle-IsKept on_network_id_validated p w sound = (sound, untouched w)
  handle-IsKept on_query_cvar_value_finished p w sound = (sound, untouched w)
  handle-IsKept on_edict_allocated p w sound = (sound, untouched w)
  handle-IsKept on_edict_freed p w sound = (sound, untouched w)

  -- Whatever callbacks the engine makes, in whatever order: if `lua_init` implies at first that
  -- `g_Lua` and the realm are set, it does so in the end; the registry, its boxes and the clients are
  -- as they were; and `g_Lua` stays set once it is.
  pub handle_all-IsKept :
      (cs : List Callback) (p : Plugin) (w : World L)
      → IsSound p w
      → IsSound (handle_all cs (p, w)).0 (handle_all cs (p, w)).1
        × IsKept w (handle_all cs (p, w)).1
  unfolding handle_all
  handle_all-IsKept [] p w sound = (sound, untouched w)
  handle_all-IsKept (c ∷ cs) p w sound =
      let (fine, kept) = handle-IsKept c p w sound in
      let (end, rest) = handle_all-IsKept cs (handle c (p, w)).0 (handle c (p, w)).1 fine in
      (
        end,
        record {
          pushed = rest.pushed ∙ kept.pushed;
          user_data = rest.user_data ∙ kept.user_data;
          client = rest.client ∙ kept.client;
          up = λ s. rest.up (kept.up s);
        },
      )
