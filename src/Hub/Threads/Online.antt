-- ===== src/Hub/Threads/Online.antt =====
-- An agent that is online has a goroutine that reads from its connection.
pub mod Keeps
pub mod KeepsTunnel
pub mod Control
pub mod Attended
use sshole.Base.{
  ℕ, ◌≡◌, refl, ◌≢◌, ◌⊎◌, inl, inr, Bool, true, false, ◌&&◌, ◌||◌, Option, none, some, List, [],
  ◌∷◌, Str, str_eq, nat_eq, ◌==◌,
}
use sshole.Hub.State.{Conn, Hub, Outcome, returned, panicked}
use sshole.Hub.Rpc.{online_control}
use sshole.Hub.Threads.{Thread, agent, agent_reads, agent_ends}

-- The goroutine reads from this connection of the agent, or is about to take it offline.
abbrev pub attends : Str → Conn → Thread → Bool
attends name ws (agent (agent_reads n c)) = name == n && ws == c
attends name ws (agent (agent_ends n c)) = name == n && ws == c
attends name ws _ = false

abbrev pub any_attends : Str → Conn → List Thread → Bool
any_attends name ws [] = false
any_attends name ws (t ∷ ts) = attends name ws t || any_attends name ws ts

-- Every connection of an agent after the stretch is attended by what the goroutine is replaced by, or
-- the agent had it before and this goroutine did not attend to it.
abbrev pub Attends : Hub → Thread → Outcome (Hub × List Thread) → Type 0
Attends h t panicked = Unit {0}
Attends h t (returned (h', ts)) =
    (name : Str) (ws : Conn)
    → online_control name h' ≡ some ws
    → (any_attends name ws ts ≡ true)
      ⊎ ((online_control name h ≡ some ws) × (attends name ws t ≡ false))
