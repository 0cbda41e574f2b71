-- ===== src/Interserver/Builders.antt =====
-- The interactors (interact_builders.cc), which check a request's arguments and build its OpenFlow
-- message, and what they are registered as (msg_resolver.cc).
pub mod Arguments
pub mod Tables
pub mod ActionFields
pub mod InstructionFields
pub mod MatchFields
pub mod Parts
pub mod Messages
pub mod Queries
pub mod Changes
pub mod Registry
pub mod Failure
pub mod Lookup
pub mod Refused
pub mod Independent
pub mod Checked
pub mod Defined
pub mod Ensured
pub mod Described
