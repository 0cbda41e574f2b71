-- ===== src/Interserver.antt =====
-- The REST interface (nox/coreapps/interserver): JSON documents as the components read them
-- (lib/json_object.cc, lib/json-util.cc), the resolver of request types (msg_resolver.cc), the
-- request processor (request_processor.cc), and the interactors that build OpenFlow messages from
-- requests (interact_builders.cc).
pub mod Json
pub mod Resolver
pub mod Registered
pub mod Processor
pub mod Builders
pub mod Answers
pub mod HttpServer
pub mod Verdict
pub mod Replies
pub mod Counting
pub mod Awaited
