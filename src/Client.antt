-- ===== src/Client.antt =====
-- client/client.go and its neighbours: calls over one connection, the cache of connections, the
-- modes of failure, the options.
pub mod Call
pub mod Failmode
pub mod Option
pub mod Connect
pub mod Routing
pub mod Guarded
