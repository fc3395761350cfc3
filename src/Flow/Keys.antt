-- ===== src/Flow/Keys.antt =====
-- A public key on its way: appendKnownHost of the entry, AppendKnownHost of the hub, readControl of
-- the agent.
use sshole.Base.{◌≡◌, Bool, Option, some, List, ◌∷◌, Str, arith, inl, inr, Option-cases, str_eq}
use sshole.Base.Text.{trim_space}
use sshole.Common.{ControlMessage}
use sshole.Tunnel.Handshake.{ReadResult, frame, text}
use sshole.Hub.State.{Conn, Hub, emit, send_control}
use sshole.Hub.Rpc.{append_known_host, online_control, known_host_message, reply}
use sshole.Entry.Pick.{append_request}
use sshole.Agent.Control.{append_key, read_control}
use sshole.Agent.Control.Laws.{read_control-known_host_message}

-- Where the hub replies without an error to an entry's key, it has sent one message to the named
-- agent's connection and done nothing else; and the agent that reads this message appends the key,
-- less the white space around it, where encoding/json reads this message back as it was written.
pub key_reaches_agent :
    (marshal : ControlMessage → Str) (unmarshal : Str → Option ControlMessage)
    (marshals : ControlMessage → Bool) (written : Option Str) (agent key : Str) (h h' : Hub)
    → unmarshal (marshal (known_host_message (trim_space key)))
      ≡ some (known_host_message (trim_space key))
    → append_known_host marshals written (append_request agent key) h ≡ (reply tt, h')
    → (c : Conn) × (online_control agent h ≡ some c)
      × (h' ≡ emit (send_control c (known_host_message (trim_space key))) h)
      × ((rest : List ReadResult)
          → read_control unmarshal
              (frame text (marshal (known_host_message (trim_space key))) ∷ rest)
            ≡ append_key (trim_space key) ∷ read_control unmarshal rest)
unfolding append_known_host append_request
key_reaches_agent marshal unmarshal marshals written agent key h h' back e =
    elim (Option-cases (online_control agent h)) [
      | inl offline ↦ absurd (ground arith)
      | inr (c, online) ↦ (
        c,
        online,
        ground arith,
        λ rest.
            read_control-known_host_message marshal unmarshal (trim_space key) rest back
              (ground arith),
      )
    ]
