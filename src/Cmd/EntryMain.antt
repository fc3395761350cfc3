-- ===== src/Cmd/EntryMain.antt =====
-- cmd/entry/main.go and run.go.
use sshole.Base.{ℕ, Bool, Option, List, [], Str, ◌==◌, str_eq, if◌then◌else◌}
use sshole.Base.Text.{codes}
use sshole.Hub.State.{Conn}
use sshole.Entry.Pick.{EntryConfig, PickResult}
use sshole.Entry.Pick as Pick
use sshole.Entry.Start
use sshole.Entry.Start.{StartStep, StartResult}

pub record EntryCli : Type 0 where
  pub hub_server : Str
  pub auth : Str
  pub agent_name : Str
  pub entry_port : ℕ
  pub public_key : Str
  pub private_key : Str

unfoldable pub default_entry_cli : EntryCli
default_entry_cli = record {
  hub_server = [];
  auth = [];
  agent_name = [];
  entry_port = 22222;
  public_key = codes "~/.ssh/id_ed25519.pub";
  private_key = codes "~/.ssh/id_ed25519";
}

unfoldable pub entry_config : EntryCli → EntryConfig
entry_config cli = record {
  hub_addr = cli.hub_server;
  token = cli.auth;
  agent_name = cli.agent_name;
  entry_port = cli.entry_port;
  public_key_path = cli.public_key;
  private_key_path = cli.private_key;
}

pub data EntryEnd : Type 0 where
  panic_no_hub_server : EntryEnd
  entry_ran : EntryConfig → List StartStep × StartResult → EntryEnd

-- main: `listed` is how pickAgent ends for a configuration, and `key` what readPublicKey returns.
unfoldable pub entry_main :
    EntryCli
    → (EntryConfig → PickResult)
    → (EntryConfig → Option Str)
    → Bool
    → List (Option Conn)
    → EntryEnd
entry_main cli listed key listening conns =
    if cli.hub_server == []
    then panic_no_hub_server
    else let c = Pick.new (entry_config cli) in
      entry_ran c (Start.start c (listed c) (key c) listening conns)
