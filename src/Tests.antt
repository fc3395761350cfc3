-- ===== src/Tests.antt =====
-- Concrete hubs, requests and runs, and the theorems of the development at these.
pub mod Data
pub mod Hubs
pub mod Ends
pub mod Flows
pub mod Tunnels
pub mod Mappings
pub mod Races
pub mod Scripts
pub mod Threads
pub mod Agents
pub mod Rpcs
