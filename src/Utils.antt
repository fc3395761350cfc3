-- ===== src/Utils.antt =====
-- pkg/utils: the processes and the SSH commands that the build scripts run.
pub mod Exec
pub mod Ssh
