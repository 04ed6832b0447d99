-- ===== src/Examples.antt =====
-- Tests by evaluation, and the theorems at concrete inputs.
pub mod Shell
pub mod Consuming
pub mod Exchange
pub mod Interface
pub mod Tools
pub mod Mcp
pub mod Names
pub mod Producing
pub mod Relays
pub mod Responder
