-- ===== src/Lib.antt =====
-- sshole: SSH to machines behind NAT. Agents keep a websocket to the hub; the hub has a TCP port for
-- each agent; entries give a local port that leads through the hub to an agent.
--
-- The parts and their files:
-- - Base: bytes as native naturals, strings as lists of bytes, Go maps as association lists, pointers
--   as numbers into a store, Go's functions on strings (Text) and paths (Paths), and what holds of a
--   list in any order (Perms).
-- - Tunnel/Handshake and Tunnel/Hex: pkg/tunnel/handshake.go, the 24 bytes that open a tunnel.
-- - Common: pkg/common/errors.go and timeouts.go, pkg/proto/control.go. Common/Caller:
--   pkg/common/logger.go.
-- - Hub/State: the types of pkg/hub/hub.go, session.go and config.go. Hub is the struct Hub with its
--   maps, its two stores (`&AgentState{…}`, `&PendingSession{…}`) and the trace of what it did to the
--   outside, newest first.
-- - Hub/Sessions (onSSHConn, sendOpen, cleanupPending, watchPendingTimeout, bindTunnel), Hub/Forward
--   (startForwarding, startWebSocketForwarding, waitForAgentAndForward), Hub/Ports
--   (findAvailablePort), Hub/Mapping (loadMapping, saveMapping and pkg/hub/mapping.go), Hub/Start
--   (NewHub, Start, startPortListeners, servePort, embeddedBinNames): pkg/hub/hub.go.
-- - Hub/AgentWs: handleAgentWS of pkg/hub/agent_ws.go. Hub/TunnelWs: handleTunnelWS of
--   pkg/hub/tunnel_ws.go. Hub/Rpc: pkg/hub/rpc.go. Hub/Config: pkg/hub/config.go. Hub/Auth: the test
--   of the token that these share.
-- - Hub/Races: handlers that overlap. Hub/Forward/Waiting: the loop of waitForAgentAndForward.
--   Hub/Mapping/Order: the Go map of the mapping, in any order.
-- - Hub/Steps: the hub's concurrency, a step for each stretch of code that holds the lock, in any
--   order; its invariants, and the handlers as sequences of steps.
-- - Hub/Threads: the goroutines of pkg/hub as programs. A point (SshPoint, TunnelPoint and so on) is
--   where one stands, with the locals that are live there; advance_ssh, advance_tunnel and so on are
--   its next stretch, and System any number of them over one hub, in any order, with what the
--   environment answers and starts. Valid, Moves, TunnelMoves, AgentMoves and Interleaving lead to the
--   steps of Hub/Steps, Panics and Crash are about nil pointers, Alone about one that nothing
--   interrupts, Care about who looks after an SSH client's pending session, and Online about who looks
--   after an agent's connection. A panic of a request's handler is recovered by net/http, which ends
--   this goroutine alone; a panic of any other goroutine ends the process, and nothing follows. Checks is about the tests of a request that these share.
-- - Agent: pkg/agent (agent.go in Start, Control, Tunnel and Requests, config.go in Config,
--   known_hosts.go in Keys, lock*.go in Lock, sshd.go in Keys and Sshd). Agent/Lock/Processes: the
--   lock of the operating system as an interface; Exclusive: several agents over it.
-- - Entry: pkg/entry/entry.go (Pick, Connection, Keys, Start).
-- - Rpc: pkg/rpc/v1/rpcv1connect/sshole.connect.go; Rpc/Calls: the hub's service, called by entries.
-- - Utils/Exec and Utils/Ssh: pkg/utils.
-- - Cmd: cmd/hub, cmd/agent and cmd/entry, the configurations that main builds and how it ends.
-- - Scripts: scripts/script (build_one.go in Bins, build.go and release.go in Build, createFcZip in
--   Zip, build-docker.go in Docker, format.go in Format, pkg/e2e in E2e). Scripts/Build/Served: what the hub serves.
-- - Flow: connections and keys through all three programs.
-- - Tests: the theorems at concrete values.
--
-- How the code is modelled. A handler is a function from the hub to the hub, cut where it lets go of
-- the lock or waits; a handler as a whole is the composition where nothing runs in between. What the
-- network, the clock, timers, the file system and new UUIDs answer is an argument. A nil pointer that
-- is dereferenced is the outcome `panicked`. A header that is absent is empty, and HTTP carries
-- headers unchanged. SHA-256, encoding/json and net/url are parameters; where a theorem needs
-- encoding/json to read back what it wrote, that is a hypothesis. Connect is a parameter (Unary), by
-- which a call gives what the method returned, where the transport works and the messages are valid. A Go map is listed in the order of
-- its insertions, which stands for the order in which it is ranged over. Ports, times and durations
-- are naturals; an int32 and an int64 that may overflow are bit patterns with their wrap-around.
-- Reads of a session's fields outside the lock belong to the stretch before them.
--
-- Fuel. The search for a free port has one more than the ports in the map, which is proved to be
-- enough; the decimal digits of n have n + 1, more than there are digits. Loops over
-- reads, connections and rounds run over the list of what is to come.
--
-- Goroutines that the scripts wait for are a list of jobs in the order in which they end. A program
-- that is run is a function of its arguments.
--
-- Not modelled: the bytes that io.Copy moves, contexts and their cancellation, the text of log lines,
-- the messages of pkg/rpc/v1/sshole.pb.go, the parsing of flags and variables by kong and
-- its dispatch to the commands (scripts/script/cli.go), the SSH server and the host key, and Go's
-- detection of a map that is read and written at once: saveMapping, which ranges over the agents
-- without the lock, reads them at one moment.
pub mod Base
pub mod Tunnel
pub mod Common
pub mod Hub
pub mod Agent
pub mod Entry
pub mod Flow
pub mod Utils
pub mod Rpc
pub mod Scripts
pub mod Cmd
pub mod Tests
