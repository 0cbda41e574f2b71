-- ===== src/Discovery.antt =====
-- The component `Discovery` (nox/netapps/discovery): its state, handlers and timers.
-- A handler takes the state to the next; what it hands to the core is logged in the state, oldest
-- first: `posted` holds the events given to `nox::post_event`, `sent` the frames given to
-- `send_openflow_pkt`, `timers` the callbacks given to `post`. The clock is an argument.
pub mod Defs
pub mod Removal
pub mod Ports
pub mod Invariant
pub mod Membership
pub mod Events
pub mod Expiry
pub mod RoundRobin
pub mod Period
pub mod Steps
unfoldable pub use Defs.*
