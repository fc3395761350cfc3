-- ===== src/Entry/Connection.antt =====
-- handleConn of pkg/entry/entry.go: one connection of a local SSH client. What the hub and the
-- network answer is an argument; `sid` is the new UUID.
use sshole.Base.{
  ◌≡◌, refl, Bool, List, [], ◌∷◌, ◌++◌, Str, nat_eq, str_eq, if◌then◌else◌, ℕ_discrete,
}
use sshole.Base.Text.{codes, has_prefix, replace_first}
use sshole.Tunnel.Handshake.{MessageType, send_handshake}
use sshole.Hub.AgentWs.{Request}
use sshole.Entry.Pick.{EntryConfig, PickResult, picked, rpc_authorization}

unfoldable pub tunnel_url : Str → Str
unfolding replace_first
tunnel_url hub_addr =
    let url = hub_addr ++ codes "/tunnel" in
    if has_prefix url (codes "ws") then url else replace_first url (codes "http") (codes "ws")

-- The headers of the tunnel request.
unfoldable pub tunnel_request : EntryConfig → Str → Str → Request
unfolding rpc_authorization
tunnel_request cfg agent_name sid = record {
  x_agent = agent_name;
  x_session = sid;
  authorization = rpc_authorization cfg;
}

pub data ConnStep : Type 0 where
  dial_hub : Str → Request → ConnStep
  write_frame : MessageType → Str → ConnStep
  -- Two copies; the one that reads the SSH client closes the tunnel when it ends.
  copy_both_ways : ConnStep
  close_tunnel : ConnStep
  close_local : ConnStep

module _ (sum256 : Str → Str) where
  after_dial : Str → Bool → List ConnStep
  after_dial sid frame_written =
      let (kind, payload) = send_handshake sum256 sid in
      write_frame kind payload
      ∷ (if frame_written
          then copy_both_ways ∷ close_tunnel ∷ close_local ∷ []
          else close_tunnel ∷ close_local ∷ [])

  unfoldable pub handle_conn : EntryConfig → Str → PickResult → Bool → Bool → List ConnStep
  unfolding after_dial
  handle_conn cfg sid (picked agent) dialled frame_written =
      dial_hub (tunnel_url cfg.hub_addr) (tunnel_request cfg agent.agent_name sid)
      ∷ (if dialled then after_dial sid frame_written else close_local ∷ [])
  handle_conn cfg sid failure dialled frame_written = close_local ∷ []

-- An http or https address of the hub becomes its websocket address.
pub tunnel_url_lem :
    (host : Str)
    → (tunnel_url (codes "http://" ++ host) ≡ codes "ws://" ++ (host ++ codes "/tunnel"))
      × (tunnel_url (codes "https://" ++ host) ≡ codes "wss://" ++ (host ++ codes "/tunnel"))
      × (tunnel_url (codes "ws://" ++ host) ≡ codes "ws://" ++ (host ++ codes "/tunnel"))
unfolding tunnel_url ℕ_discrete
tunnel_url_lem host = (refl, refl, refl)
