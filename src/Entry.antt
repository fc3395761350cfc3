-- ===== src/Entry.antt =====
-- pkg/entry
pub mod Pick
pub mod Connection
pub mod Keys
pub mod Start
