-- ===== src/Lib.antt =====
-- gmod-queue: a server plugin for Garry's Mod that lets a server take more clients than it has player
-- slots. Clients from slot 128 on wait in a queue; a client that spawns there is moved to a free slot.
--
-- Parts and files (paths from the repository's root):
-- - Base and its modules: native numbers, integers, lists, heaps and association lists.
-- - Messages: the classes of source/sourcesdk/netmessages.h with the numbers of protocol.h. A
--   `Declaration` has a class's name, number, group, reliability and members in their order; a
--   `NetMessage` is an object in memory, whose members are addressed by place, as the casts of the
--   move do.
-- - Engine: the data of source/sourcesdk (`CBaseClient`, `CNetChan`, `CBaseServer`, `SVC_ServerInfo`,
--   the constants of protocol.h) with the inline accessors that the plugin uses.
-- - World: the state that a function of the plugin sees. `World` holds the interpreter's state, the
--   engine's objects by address, the plugin's globals and what it prints. `Action` is a function that
--   returns, raises a Lua error, or faults, as a read through NULL, through a freed box or out of
--   range does; `IsUntouched` says that the engine's objects are the same. `Host` holds the calls to
--   code outside the repository: `ILuaInterface` (`LuaApi`) and the engine's functions (`EngineApi`);
--   what a proof relies on in these are the records `StackLaws`, `ReferenceLaws`, `CallbackLaws`,
--   `EngineLaws`, `QuietLaws`, `HallLaws`, `OrderLaws` and `LookupLaws`. `CalmHooks` is a condition
--   on the server's scripts instead: their hooks on a change of slot or a disconnection unseat nobody.
--   The results on who sits where ask for it, since a script that disconnects clients there breaks
--   them.
-- - Util: source/util.cpp, the lookups of clients (`Util::GetClientByIndex` is
--   `get_client_by_index`, and so on).
-- - Slots: `FindFreeClientSlot` of source/queue.cpp.
-- - UserData: `LuaUserData`, and the macros `PushReferenced_LuaClass` and `Get_LuaClass` of
--   source/util.h as source/queue.cpp instantiates them for `CBaseClient`. `g_pPushedCBaseClient` is
--   `World.pushed`, from addresses of clients to addresses of boxes. `Objects` says which of Lua's
--   objects carries which box, and which one a reference keeps; in a tidy state (`IsTidy`) none
--   dangles, which is what the methods ask of their arguments.
-- - Hooks: `Lua::PushHook` (source/lua.cpp) and the detours `hook_CBaseClient_SetSignonState`,
--   `hook_CBaseServer_FillServerInfo`, `hook_CSteam3Server_NotifyClientDisconnect` and
--   `hook_CServerGameClients_GetPlayerLimit` (source/queue.cpp).
-- - Move: `MoveCGameClientIntoCGameClient`; Spawn: `hook_CGameClient_SpawnPlayer`.
-- - Seating: the abstract queue. `Seats` says who is on which slot, `view` reads it from the engine's
--   objects, and `queue_spawn` is what a spawn does to it. A server is open (`IsOpen`) if it runs, its
--   clients lie as the engine puts them, the plugin is ready, and whoever signs on past the player
--   slots has a net channel. What the engine does when a user joins or has left is a change of the
--   clients at one slot (`visited`), and openness afterwards is proved. An `Event` is a user who
--   joins, one who leaves (`GameServer_OnClientDisconnect`, then the engine), a client's spawn, or a
--   call from Lua. A `Delivery` is the way of a message to the client, where Wire reads it.
-- - ClientApi: the methods that Lua code calls on a client; GameServer: `gameserver_GetClient` and
--   `gameserver_GetAll` (all source/queue.cpp).
-- - Calls: what Lua code can call, `LuaCall`. `InOrder` says that the plugin is ready, Lua is up and the
--   main thread runs; `Ensures` says what an action that starts in one condition ends in.
-- - Entries: the calls from Lua and the five detours, `Entry`. In a `Session` these come in any order,
--   with Lua up, and Lua and the engine change their own state in between. The callbacks of
--   `CServerPlugin` are not entries of this kind; they are `Callback` in Plugin.
-- - Tables: the table helpers of source/util.h.
-- - Detours: source/detours.cpp and source/detours.h; the hook library is the parameter `HookApi`.
-- - Plugin: `CServerPlugin` (source/plugin.cpp), `Queue::Init`, source/symbols.h and the rest of
--   source/lua.cpp.
-- - Wire: `SVC_ServerInfo::WriteToBuffer` and `ReadFromBuffer` (source/sourcesdk/netmessages.cpp) over
--   the bit buffers of the engine, the parameter `BitApi`.
-- - Examples: a small interpreter, engine and server, and the theorems applied to these.
--
-- How they interact: the detours of Hooks and Spawn are entered by the engine. Spawn asks Slots for a
-- slot and Util for the client there, and moves by Move, which asks Hooks. Hooks, ClientApi and
-- GameServer push clients through UserData. Plugin sets up the tables and the detours.
--
-- Bounds: a pointer is a natural number and 0 is NULL; every address but 0 holds a client object, and
-- a virtual call through a server that is NULL is a fault. An `int` is an unbounded integer, since
-- the plugin only compares, copies and adds one to these; the cast of a number from Lua to an `int`
-- is `cast_int`, which gives the least `int` for a number that does not fit, as on x86; a `size_t`
-- that wraps around is written out. Every loop is a recursion on a list, so that there is no fuel. A
-- double, a float and a digest are their bit patterns. `g_Lua` and `LUA` are one interpreter.
-- `ILuaInterface::IsType` is the comparison of `GetType`. Lua errors raised inside calls of the
-- interpreter other than the argument checks are not modelled.
--
-- Not modelled: code of the engine behind the headers of source/sourcesdk; the sizes of the members of
-- a message, and what the constructors store in them; the log line of
-- `SVC_ServerInfo::ToString`; the empty `ClientPrint` of source/plugin.cpp; the build files. What
-- nothing calls (UserData/Macros, Detours/Resolve) has definitions but no theorems.
pub mod Base
pub mod Messages
pub mod Engine
pub mod World
pub mod Util
pub mod Slots
pub mod UserData
pub mod Hooks
pub mod Move
pub mod Spawn
pub mod Seating
pub mod ClientApi
pub mod GameServer
pub mod Calls
pub mod Entries
pub mod Tables
pub mod Detours
pub mod Plugin
pub mod Wire
pub mod Examples
