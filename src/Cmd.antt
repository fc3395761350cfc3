-- ===== src/Cmd.antt =====
-- cmd: the three programs. The flags are what kong reads; their defaults are those of the tags.
pub mod HubMain
pub mod AgentMain
pub mod EntryMain
