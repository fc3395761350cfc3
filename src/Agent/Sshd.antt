-- ===== src/Agent/Sshd.antt =====
-- ensureSSHD and isPortListening of pkg/agent/sshd.go. The server is sshdev's; what it and the
-- network answer is an argument.
use sshole.Base.{Bool, true, false, List, [], ◌∷◌, if◌then◌else◌}

-- One round of the wait: whether the port answers, and what the select then finds.
pub data SelectCase : Type 0 where
  server_error deadline_passed nothing_yet : SelectCase

pub record WaitRound : Type 0 where
  pub listening : Bool
  pub select : SelectCase

pub data Sshd : Type 0 where
  already_listening started keys_failed create_failed server_failed listen_failed still_waiting :
      Sshd

-- `true` where the server was told to stop.
abbrev stopped : Sshd → Bool
stopped listen_failed = true
stopped _ = false

wait_sshd : List WaitRound → Sshd
wait_sshd [] = still_waiting
wait_sshd (w ∷ rounds) =
    let rest = wait_sshd rounds in
    if w.listening then started else elim w.select [
      | server_error ↦ server_failed
      | deadline_passed ↦ listen_failed
      | nothing_yet ↦ rest
    ]

unfoldable pub ensure_sshd : Bool → Bool → Bool → List WaitRound → Sshd
unfolding wait_sshd
ensure_sshd listening keys_file created rounds =
    if listening
    then already_listening
    else if keys_file
    then (if created then wait_sshd rounds else create_failed)
    else keys_failed
