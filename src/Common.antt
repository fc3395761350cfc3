-- ===== src/Common.antt =====
-- pkg/common: error codes and timeouts. pkg/proto/control.go: the message of the control plane.
pub mod Caller
use sshole.Base.{ℕ, ◌*◌, Str}
use sshole.Base.Text.{codes}

pub data ErrCode : Type 0 where
  err_auth_failed err_agent_offline err_session_not_found err_session_mismatch : ErrCode
  err_duplicate_tunnel err_handshake_failed err_timeout : ErrCode

abbrev pub err_text : ErrCode → Str
err_text err_auth_failed = codes "AUTH_FAILED"
err_text err_agent_offline = codes "AGENT_OFFLINE"
err_text err_session_not_found = codes "SESSION_NOT_FOUND"
err_text err_session_mismatch = codes "SESSION_MISMATCH"
err_text err_duplicate_tunnel = codes "DUPLICATE_TUNNEL"
err_text err_handshake_failed = codes "HANDSHAKE_FAILED"
err_text err_timeout = codes "TIMEOUT"

-- A `time.Duration` that is not negative, in nanoseconds.
abbrev pub second : ℕ
second = 1000000000

pub record Timeouts : Type 0 where
  pub pending_timeout : ℕ
  pub tunnel_dial_timeout : ℕ
  pub agent_reconnect_max_retries : ℕ
  pub agent_reconnect_backoff : ℕ

abbrev pub default_timeouts : Timeouts
default_timeouts = record {
  pending_timeout = 10 * second;
  tunnel_dial_timeout = 5 * second;
  agent_reconnect_max_retries = 3;
  agent_reconnect_backoff = 1 * second;
}

pub record ControlMessage : Type 0 where
  pub type : Str
  pub session_id : Str
  pub known_host : Str
