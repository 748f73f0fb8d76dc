-- ===== src/Plugin/Library.antt =====
-- What `Queue::Init` (source/queue.cpp) leaves in the interpreter: the metatable of clients and the
-- library `playerqueue`.
use gmod_queue.Base.{negsuc, ◌≡◌, refl, ◌∙◌, true, List, [], ◌∷◌, String, arith}
use gmod_queue.World.State.{World}
use gmod_queue.World.Host.{Host}
use gmod_queue.World.Laws.{StackLaws}
use gmod_queue.World.Monad.{ok, modify, >>=-ok}
use gmod_queue.World.Interp.{g_lua_do, g_lua_call, g_lua_do-ok, g_lua_call-ok}
use gmod_queue.Hooks.{globals_index}
use gmod_queue.Tables.{start_table, add_func}
use gmod_queue.Plugin.{queue_init_lua, add_funcs, client_methods}

-- The names in the metatable, each after its function.
abbrev pub meta_functions : List (String × String)
meta_functions =
    ("CBaseClient__newindex", "__newindex")
    ∷ ("CBaseClient__index", "__index")
    ∷ ("CBaseClient_GetTable", "GetTable")
    ∷ ("CBaseClient_GetPlayerSlot", "GetPlayerSlot")
    ∷ ("CBaseClient_GetUserID", "GetUserID")
    ∷ ("CBaseClient_GetName", "GetName")
    ∷ ("CBaseClient_GetSteamID", "GetSteamID")
    ∷ ("CBaseClient_Reconnect", "Reconnect")
    ∷ ("CBaseClient_ClientPrint", "ClientPrint")
    ∷ ("CBaseClient_IsValid", "IsValid")
    ∷ ("CBaseClient_Disconnect", "Disconnect")
    ∷ ("CBaseClient_IsConnected", "IsConnected")
    ∷ ("CBaseClient_IsSpawned", "IsSpawned")
    ∷ ("CBaseClient_IsActive", "IsActive")
    ∷ ("CBaseClient_GetSignonState", "GetSignonState")
    ∷ ("CBaseClient_IsFakeClient", "IsFakeClient")
    ∷ ("CBaseClient_SetSignonState", "SetSignonState")
    ∷ ("CGameClient__tostring", "__tostring")
    ∷ []

-- The names in the library.
abbrev pub library_functions : List (String × String)
library_functions = ("gameserver_GetClient", "GetClient") ∷ ("gameserver_GetAll", "GetAll") ∷ []

module _ {L : Type 0} ⦃host : Host L⦄ where
  open host use {
    top, push_string, push_c_function, raw_set, create_table, create_meta_table, set_field, pop,
  }

  -- The table on top, with one function more.
  abbrev pub with_function : String → String → L → L
  with_function func name l = raw_set (negsuc 2) (push_c_function func (push_string name l))

  unfoldable pub with_functions : List (String × String) → L → L
  with_functions [] l = l
  with_functions ((func, name) ∷ rest) l = with_functions rest (with_function func name l)

  -- The interpreter with the metatable filled and the library in the global `playerqueue`.
  abbrev pub installed_library : L → L
  installed_library l = set_field globals_index "playerqueue" (
      with_functions library_functions (
        create_table (pop 1 (with_functions meta_functions (create_meta_table "CGameClient" l).1))))

  add_func_ran :
      (func name : String) (w : World L)
      → w.lua_set ≡ true
      → add_func func name w ≡ (ok tt, record w { lua = with_function func name w.lua })
  unfolding add_func
  add_func_ran func name w set =
      let named : L = push_string name w.lua in
      let both : L = push_c_function func named in
      >>=-ok (g_lua_do (push_string name)) _ (g_lua_do-ok w set _)
      ∙ >>=-ok (g_lua_do (push_c_function func)) _ (g_lua_do-ok (record w { lua = named }) set _)
      ∙ g_lua_do-ok (record w { lua = both }) set _

  add_funcs_ran :
      (fs : List (String × String)) (w : World L)
      → w.lua_set ≡ true
      → add_funcs fs w ≡ (ok tt, record w { lua = with_functions fs w.lua })
  unfolding add_funcs with_functions
  add_funcs_ran [] w set = refl
  add_funcs_ran ((func, name) ∷ rest) w set =
      >>=-ok (add_func func name) _ (add_func_ran func name w set)
      ∙ add_funcs_ran rest (record w { lua = with_function func name w.lua }) set

  module _ (stack : StackLaws host.lua_api) where
    with_function-top : (func name : String) (l : L) → top (with_function func name l) ≡ top l
    with_function-top func name l = omega (
      arith,
      stack.push_string_top name l,
      stack.push_c_function_top func (push_string name l),
      stack.raw_set_top (negsuc 2) (push_c_function func (push_string name l)),
    )

    with_functions-top : (fs : List (String × String)) (l : L) → top (with_functions fs l) ≡ top l
    unfolding with_functions
    with_functions-top [] l = refl
    with_functions-top ((func, name) ∷ rest) l =
        with_functions-top rest (with_function func name l) ∙ with_function-top func name l

    -- With Lua up, `Queue::Init` creates the metatable `CGameClient`, puts the seventeen methods of
    -- clients and `__tostring` into it, each under its name, pops it, and puts `GetClient` and `GetAll`
    -- into a new table, the global `playerqueue`. It returns with the new type stored, nothing else of
    -- the plugin changed, and the stack as high as it was.
    pub queue_init_lua-IsLevel :
        (w : World L)
        → w.lua_set ≡ true
        → (queue_init_lua w ≡ (
          ok tt,
          record w {
            lua = installed_library w.lua;
            client_type_id = (create_meta_table "CGameClient" w.lua).0;
          },
        ))
          × (top (installed_library w.lua) ≡ top w.lua)
    unfolding queue_init_lua with_functions
    queue_init_lua-IsLevel w set =
        let made : L = (create_meta_table "CGameClient" w.lua).1 in
        let typed : World L = record w {
          lua = made;
          client_type_id = (create_meta_table "CGameClient" w.lua).0;
        } in
        let methods : L = with_functions client_methods made in
        let meta : L = with_function "CGameClient__tostring" "__tostring" methods in
        let table : L = create_table (pop 1 meta) in
        let one : L = with_function "gameserver_GetClient" "GetClient" table in
        let both : L = with_function "gameserver_GetAll" "GetAll" one in
        (
          >>=-ok (g_lua_call (create_meta_table "CGameClient")) _ (g_lua_call-ok w set _)
              ∙ (>>=-ok
                    (modify
                      λ v. record v { client_type_id = (create_meta_table "CGameClient" w.lua).0 })
                    _ refl
                  ∙ (>>=-ok (add_funcs client_methods) _ (add_funcs_ran client_methods typed set)
                      ∙ (>>=-ok (add_func "CGameClient__tostring" "__tostring") _
                            (add_func_ran _ _ (record typed { lua = methods }) set)
                          ∙ (>>=-ok (g_lua_do (pop 1)) _
                                (g_lua_do-ok (record typed { lua = meta }) set _)
                              ∙ (>>=-ok start_table _
                                    (g_lua_do-ok (record typed { lua = pop 1 meta }) set _)
                                  ∙ (>>=-ok (add_func "gameserver_GetClient" "GetClient") _
                                        (add_func_ran _ _ (record typed { lua = table }) set)
                                      ∙ (>>=-ok (add_func "gameserver_GetAll" "GetAll") _
                                            (add_func_ran _ _ (record typed { lua = one }) set)
                                          ∙ g_lua_do-ok (record typed { lua = both }) set _))))))),
          omega (
            arith,
            stack.create_meta_table_top "CGameClient" w.lua,
            with_functions-top meta_functions made,
            stack.pop_top 1 meta,
            stack.create_table_top (pop 1 meta),
            with_functions-top library_functions table,
            stack.set_field_top globals_index "playerqueue" both,
          ),
        )
