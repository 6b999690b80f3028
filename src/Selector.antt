-- ===== src/Selector.antt =====
-- The selectors of selector/.
pub mod Weight
pub mod Plain
pub mod Ping
pub mod Hash
pub mod Geo
pub mod Modes
