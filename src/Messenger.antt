-- ===== src/Messenger.antt =====
-- The messenger (nox/coreapps/messenger): connections (messenger_core.cc) over a message processor,
-- and its two processors, binary messages (messenger.cc) and JSON (jsonmessenger.cc).
pub mod Connection
pub mod Binary
pub mod Reassembly
pub mod Stream
pub mod ShortHeader
pub mod JsonFraming
pub mod Idle
