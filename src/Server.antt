-- ===== src/Server.antt =====
-- The server of server/.
pub mod Service
pub mod Handle
pub mod Listener
pub mod Registration
pub mod Controller
pub mod Controllers
pub mod Option
pub mod Http
pub mod Conn
