-- ===== src/OpenFlow/Instructions.antt =====
-- lib/instructions.cc. Each call makes room for one more pointer before it writes it, so the array
-- is a list that grows at its end.
use nox13_interserver.Common.{ℕ, List, [], ◌∷◌, ◌++◌}
use nox13_interserver.OpenFlow.Actions.{Actions}

pub data Instruction : Type 0 where
  goto_table : ℕ → Instruction
  write_metadata : ℕ → ℕ → Instruction
  write_actions : Actions → Instruction
  apply_actions : Actions → Instruction
  clear_actions : Instruction
  meter : ℕ → Instruction

-- Instruction::Instruction
abbrev pub new_instructions : List Instruction
new_instructions = []

unfoldable pub create_instruction : Instruction → List Instruction → List Instruction
create_instruction i insts = insts ++ i ∷ []

-- CreateApply: the pointer and the count of the actions, by AddActions.
unfoldable pub create_apply : Actions → List Instruction → List Instruction
unfolding create_instruction
create_apply a insts = create_instruction (apply_actions a) insts

unfoldable pub create_write : Actions → List Instruction → List Instruction
unfolding create_instruction
create_write a insts = create_instruction (write_actions a) insts

unfoldable pub create_goto_table : ℕ → List Instruction → List Instruction
unfolding create_instruction
create_goto_table table insts = create_instruction (goto_table table) insts

-- CreateWriteMetadata(metadata) has a mask of ones.
unfoldable pub create_write_metadata : ℕ → List Instruction → List Instruction
unfolding create_instruction
create_write_metadata metadata insts =
    create_instruction (write_metadata metadata 0xffffffffffffffff) insts

unfoldable pub create_write_metadata_masked : ℕ → ℕ → List Instruction → List Instruction
unfolding create_instruction
create_write_metadata_masked metadata mask insts =
    create_instruction (write_metadata metadata mask) insts

unfoldable pub create_clear_actions : List Instruction → List Instruction
unfolding create_instruction
create_clear_actions insts = create_instruction clear_actions insts

unfoldable pub create_meter : ℕ → List Instruction → List Instruction
unfolding create_instruction
create_meter id insts = create_instruction (meter id) insts
