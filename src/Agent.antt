-- ===== src/Agent.antt =====
-- internal/agent: the program that collects metrics and sends them to the server.
pub mod Sender
pub mod Pool
pub mod Main
pub mod Setup
pub mod Collector
mod Tests
