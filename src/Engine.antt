-- ===== src/Engine.antt =====
-- The engine's objects that the plugin reads and writes: clients, net channels, the server and
-- the `SVC_ServerInfo` message, as source/sourcesdk declares them.
pub mod Protocol
pub mod Client
pub mod NetChan
pub mod Server
pub mod ServerInfo
