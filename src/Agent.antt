-- ===== src/Agent.antt =====
-- pkg/agent
pub mod Config
pub mod Requests
pub mod Control
pub mod Tunnel
pub mod Keys
pub mod Lock
pub mod Sshd
pub mod Start
