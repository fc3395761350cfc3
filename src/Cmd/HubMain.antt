-- ===== src/Cmd/HubMain.antt =====
-- cmd/hub/main.go.
pub mod Serving
use sshole.Base.{Bool, ℕ, ◌*◌, ◌≡◌, Option, none, some, List, [], Str, ◌==◌, str_eq, if◌then◌else◌}
use sshole.Base.Text.{codes}
use sshole.Common.{second}
use sshole.Hub.State.{Hub, HubConfig, BinsFs, Conn}
use sshole.Hub.Mapping.{PortMapping, Result, ok, err}
use sshole.Hub.Start
use sshole.Hub.Start.{
  new_hub, StartEnd, server_failed, still_waiting, Stopped, no_error, still_serving,
}

pub record HubCli : Type 0 where
  pub auth_token : Str
  pub http_addr : Str
  pub mapping_file : Str
  pub pending : ℕ
  pub tunnel_dial : ℕ

-- No flag and no variable is set.
unfoldable pub default_hub_cli : HubCli
default_hub_cli = record {
  auth_token = [];
  http_addr = codes ":9000";
  mapping_file = codes "data/port_mapping.json";
  pending = 10 * second;
  tunnel_dial = 5 * second;
}

unfoldable pub hub_config : HubCli → BinsFs → HubConfig
hub_config cli fs = record {
  auth_token = cli.auth_token;
  http_addr = cli.http_addr;
  mapping_file = cli.mapping_file;
  pending_timeout = cli.pending;
  tunnel_dial_timeout = cli.tunnel_dial;
  bins_fs = fs;
}

pub data HubEnd : Type 0 where
  panic_load_bins panic_init_hub panic_hub_stopped : HubEnd
  hub_serves hub_exited : Hub → HubEnd

abbrev pub after_start : Stopped × Hub → HubEnd
after_start (no_error, h) = hub_exited h
after_start (still_serving, h) = hub_serves h
after_start (failure, h) = panic_hub_stopped

-- main's context is never done.
abbrev pub background : Bool → StartEnd
background fails = if fails then server_failed else still_waiting

-- main: the embedded files, `none` where fs.Sub fails; `loaded` is what LoadMapping returns for the
-- file, and `fails` is whether ListenAndServe does.
unfoldable pub hub_main :
    HubCli → Option BinsFs → Result PortMapping → (ℕ → Option Conn) → Bool → HubEnd
hub_main cli none loaded listen fails = panic_load_bins
hub_main cli (some fs) loaded listen fails = elim (new_hub (hub_config cli fs) loaded) [
  | err e ↦ panic_init_hub
  | ok h ↦ after_start (Start.start listen (background fails) h)
]
