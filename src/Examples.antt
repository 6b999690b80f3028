-- ===== src/Examples.antt =====
-- The theorems of the development at concrete inputs, and runs of the definitions.
pub mod Wire
pub mod Calls
pub mod Servers
pub mod Requests
pub mod Exchanges
pub mod Pipelines
pub mod Breakers
pub mod Registers
pub mod Selectors
