-- ===== src/Tests/Tunnels.antt =====
-- The theorems on tunnels that go wrong, and on what stays of a session, at the hubs of Data.
use sshole.Base.{◌≡◌, refl, true, false, none, some, arith, ℕ_discrete, str_eq, nat_eq}
use sshole.Base.Text.{codes}
use sshole.Base.Dict.{lookup}
use sshole.Common.{err_duplicate_tunnel, err_session_mismatch, err_text}
use sshole.Tunnel.Handshake.{frame, binary, build_handshake}
use sshole.Hub.State.{Conn, Hub, returned, panicked, pending_bound}
use sshole.Hub.AgentWs.{Request}
use sshole.Hub.Sessions.{
  bind_tunnel, bind_error, insert_pending, mark_open_sent, watch_pending_timeout, timeout_check,
}
use sshole.Hub.Forward.{Forwarding, wait_round, tick}
use sshole.Hub.TunnelWs.{handle_tunnel_ws, join_session, refuse, entry_session, bind_entry_session}
use sshole.Hub.TunnelWs.Laws.{join_session_mismatch, handle_tunnel_ws_offline, entry_binding_lost}
use sshole.Tests.Data.{
  digest, alpha, beta, sid, online, beta_entry, no_session_yet, waiting, sid_entry, is_connected,
  allowed,
}

join_session_mismatch_example :
    (h' : Hub) × (join_session beta sid 30 0 waiting
      ≡ returned (refuse 30 (err_text err_session_mismatch) h'))
    × (lookup sid h'.pending ≡ some 0)
    × (watch_pending_timeout sid h' ≡ h')
    × ((other : Conn) → bind_tunnel sid other h' ≡ bind_error err_duplicate_tunnel sid)
unfolding mark_open_sent ℕ_discrete
join_session_mismatch_example =
    join_session_mismatch beta sid 30 0 waiting sid_entry refl refl refl (ground arith)

abbrev to_beta : Request
to_beta = record { x_agent = beta; x_session = sid; authorization = codes "Bearer s" }

handle_tunnel_ws_offline_example :
    handle_tunnel_ws digest to_beta
      (record {
        accepted = some 30;
        first_read = frame binary (build_handshake digest sid);
        now = 8;
        written = true;
      })
      online
    ≡ panicked
unfolding ℕ_discrete
handle_tunnel_ws_offline_example =
    handle_tunnel_ws_offline digest to_beta 30 1 8 true online (ground arith) (ground arith) allowed
      beta_entry refl no_session_yet

entry_binding_lost_example :
    (wait_round sid 60 tick (
        mark_open_sent 0
          (bind_entry_session 0 30 (insert_pending (entry_session sid alpha 60 4 online) online)))
      ≡ none)
    × (timeout_check sid (
          mark_open_sent 0
            (bind_entry_session 0 30 (insert_pending (entry_session sid alpha 60 4 online) online)))
        ≡ true)
entry_binding_lost_example = entry_binding_lost alpha sid 60 30 4 online

connected_state : (is_connected.session_at 0).state ≡ pending_bound
unfolding mark_open_sent ℕ_discrete
connected_state = refl

abbrev forwarding : Forwarding
forwarding = record { left = 20; right = 30; session = some sid; closed = false }
