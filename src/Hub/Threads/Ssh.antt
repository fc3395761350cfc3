-- ===== src/Hub/Threads/Ssh.antt =====
-- The stretches of onSSHConn and watchPendingTimeout.
use sshole.Base.{Bool, true, false, none, some, [], ◌∷◌, if◌then◌else◌, Str}
use sshole.Hub.State.{
  Ref, Hub, Outcome, returned, panicked, emit, close_conn, go_watch_pending, pending_closed,
  pending_timeout,
}
use sshole.Hub.Sessions.{
  ssh_lookup, insert_pending, ssh_session, send_open, cleanup_pending, mark_open_sent,
  timeout_check,
}
use sshole.Hub.Threads.{
  SshPoint, ssh_start, ssh_found, ssh_pending, ssh_unsent, ssh_sent, WatchPoint, watching, expired,
  Input, Moved, goes, ends, watch,
}

abbrev pub after_open : Str → Ref → Outcome (Hub × Bool) → Outcome (Moved SshPoint)
after_open sid r panicked = panicked
after_open sid r (returned (h, true)) = goes (ssh_sent sid r) h
after_open sid r (returned (h, false)) = goes (ssh_unsent sid) h

unfoldable pub advance_ssh : Input → SshPoint → Hub → Outcome (Moved SshPoint)
advance_ssh x (ssh_start agent conn) h = elim (ssh_lookup agent h) [
  | none ↦ ends [] (emit (close_conn conn) h)
  | some a ↦ goes (ssh_found agent conn a) h
]
advance_ssh x (ssh_found agent conn a) h =
    goes (ssh_pending x.new_sid h.next_session a)
      (insert_pending (ssh_session x.new_sid agent conn x.now h) h)
advance_ssh x (ssh_pending sid r a) h =
    after_open sid r (send_open (h.agent_at a).control sid x.written h)
advance_ssh x (ssh_unsent sid) h = ends [] (cleanup_pending sid pending_closed h)
advance_ssh x (ssh_sent sid r) h =
    ends (watch (watching sid) ∷ []) (emit (go_watch_pending sid) (mark_open_sent r h))

unfoldable pub advance_watch : Input → WatchPoint → Hub → Outcome (Moved WatchPoint)
advance_watch x (watching sid) h = if timeout_check sid h then goes (expired sid) h else ends [] h
advance_watch x (expired sid) h = ends [] (cleanup_pending sid pending_timeout h)
