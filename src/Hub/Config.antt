-- ===== src/Hub/Config.antt =====
-- pkg/hub/config.go
use sshole.Base.{[], ◌==◌, nat_eq, str_eq, if◌then◌else◌}
use sshole.Base.Text.{codes}
use sshole.Common.{default_timeouts}
use sshole.Hub.State.{HubConfig}

unfoldable pub with_defaults : HubConfig → HubConfig
with_defaults c = record c {
  http_addr = if c.http_addr == [] then codes ":9000" else c.http_addr;
  pending_timeout =
      if c.pending_timeout == 0 then default_timeouts.pending_timeout else c.pending_timeout;
  tunnel_dial_timeout =
      if c.tunnel_dial_timeout == 0
      then default_timeouts.tunnel_dial_timeout
      else c.tunnel_dial_timeout;
}
