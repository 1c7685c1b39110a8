-- ===== src/Mips/Execute/Branch.antt =====
-- The branches and jumps of `OneInstruction` in nachos-3.4/code/machine/mipssim.cc.
use n4ch0s.Base.{◌==◌, if◌then◌else◌, Bool, not, Option, some, bit_or, bit_and}
use n4ch0s.Machine.{Machine, write_reg, ret_addr_reg, next_pc_reg}
use n4ch0s.Mips.Decode.{Instruction}
use n4ch0s.Mips.Execute.Ending.{Outcome, next_pc, rs_of, retire, rt_of}
use n4ch0s.Mips.Word.{add32, is_negative, slt32, shl32}

-- `pcAfter = registers[NextPCReg] + IndexToAddr(instr->extra)` if the branch is taken.
abbrev pub branch : Bool → Machine → Instruction → Option Outcome
branch taken m i =
    let target = add32 (m.registers next_pc_reg) (shl32 i.extra 2) in
    some (retire m (if taken then target else next_pc m) 0 0)

-- `registers[R31] = registers[NextPCReg] + 4`, from which the case falls through.
abbrev pub link : Machine → Machine
link m = write_reg m ret_addr_reg (next_pc m)

abbrev pub exec_beq : Machine → Instruction → Option Outcome
exec_beq m i = branch (rs_of m i == rt_of m i) m i

abbrev pub exec_bgez : Machine → Instruction → Option Outcome
exec_bgez m i = branch (not (is_negative (rs_of m i))) m i

abbrev pub exec_bgtz : Machine → Instruction → Option Outcome
exec_bgtz m i = branch (slt32 0 (rs_of m i)) m i

abbrev pub exec_blez : Machine → Instruction → Option Outcome
exec_blez m i = branch (not (slt32 0 (rs_of m i))) m i

abbrev pub exec_bltz : Machine → Instruction → Option Outcome
exec_bltz m i = branch (is_negative (rs_of m i)) m i

abbrev pub exec_bne : Machine → Instruction → Option Outcome
exec_bne m i = branch (not (rs_of m i == rt_of m i)) m i

abbrev pub exec_j : Machine → Instruction → Option Outcome
exec_j m i = some (retire m (bit_or (bit_and (next_pc m) 0xf000_0000) (shl32 i.extra 2)) 0 0)

abbrev pub exec_jr : Machine → Instruction → Option Outcome
exec_jr m i = some (retire m (rs_of m i) 0 0)

-- The link register is written before the jump's register is read.
abbrev pub exec_jalr : Machine → Instruction → Option Outcome
exec_jalr m i = exec_jr (write_reg m i.rd (next_pc m)) i
