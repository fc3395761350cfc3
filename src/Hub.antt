-- ===== src/Hub.antt =====
-- pkg/hub
pub mod State
pub mod Config
pub mod Auth
pub mod Mapping
pub mod Ports
pub mod Sessions
pub mod Forward
pub mod AgentWs
pub mod TunnelWs
pub mod Rpc
pub mod Start
pub mod Steps
pub mod Races
pub mod Threads
