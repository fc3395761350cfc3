-- ===== src/Agent/Config.antt =====
-- pkg/agent/config.go. A time.Duration is an int64 by its bit pattern.
use sshole.Base.{ℕ, ◌+◌, ◌*◌, ◌%◌, ◌<◌, ◌≡◌, Bool, arith, Str, ◌==◌, nat_eq, if◌then◌else◌, ltb}
use Prim.Native.Nat.{min}
use sshole.Common.{Timeouts, default_timeouts, second}

pub record AgentConfig : Type 0 where
  pub hub_url : Str
  pub token : Str
  pub agent_name : Str
  pub local_port : ℕ
  pub skip_sshd : Bool
  pub timeouts : Timeouts

abbrev or_default : ℕ → ℕ → ℕ
or_default n d = if n == 0 then d else n

unfoldable pub with_defaults : AgentConfig → AgentConfig
with_defaults c = record c {
  local_port = or_default c.local_port 22222;
  timeouts = record {
    pending_timeout = or_default c.timeouts.pending_timeout default_timeouts.pending_timeout;
    tunnel_dial_timeout =
        or_default c.timeouts.tunnel_dial_timeout default_timeouts.tunnel_dial_timeout;
    agent_reconnect_backoff =
        or_default c.timeouts.agent_reconnect_backoff default_timeouts.agent_reconnect_backoff;
    agent_reconnect_max_retries =
        or_default c.timeouts.agent_reconnect_max_retries
          default_timeouts.agent_reconnect_max_retries;
  };
}

-- `a < b` of two int64 by their bit patterns.
abbrev pub int64_lt : ℕ → ℕ → Bool
int64_lt a b =
    ltb ((a + 0x8000000000000000) % 0x10000000000000000)
      ((b + 0x8000000000000000) % 0x10000000000000000)

-- retryBackoff; the product wraps as an int64.
unfoldable pub retry_backoff : AgentConfig → ℕ → ℕ
retry_backoff c attempt =
    let backoff = c.timeouts.agent_reconnect_backoff * (attempt + 1) % 0x10000000000000000 in
    let max = 30 * second in if int64_lt max backoff then max else backoff

bounded_min :
    (p : ℕ)
    → p < 0x8000000000000000
    → (let backoff = p % 0x10000000000000000 in
        if int64_lt (30 * second) backoff then 30 * second else backoff)
      ≡ min p (30 * second)
bounded_min p fits = ground arith

-- While the product fits an int64 the delay is the product or 30 seconds, whichever is less.
pub retry_backoff-min :
    (c : AgentConfig) (attempt : ℕ)
    → c.timeouts.agent_reconnect_backoff * (attempt + 1) < 0x8000000000000000
    → retry_backoff c attempt
      ≡ min (c.timeouts.agent_reconnect_backoff * (attempt + 1)) (30 * second)
unfolding retry_backoff
retry_backoff-min c attempt fits = bounded_min _ fits
