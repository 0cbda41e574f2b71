-- ===== src/OpenFlow.antt =====
-- The OpenFlow messages that the components build: constants of openflow/openflow.h, and the
-- builder classes `Actions` (lib/actions.cc), `Instruction` (lib/instructions.cc) and `FlowMod`
-- (lib/flowmod.cc).
pub mod Codes
pub mod Actions
pub mod Instructions
pub mod FlowMod
