-- ===== src/Mips/Execute.antt =====
-- `Machine::OneInstruction` of nachos-3.4/code/machine/mipssim.cc from the switch on. What the
-- branches do is in the children, a child for a family of branches; the DEBUG prints are left out.
pub mod Ending
pub mod Arith
pub mod Branch
pub mod Load
pub mod Store
pub mod Control
pub mod Precise
pub mod Overflow
pub mod Logic
use n4ch0s.Base.{ℕ, true, false, Option, none}
use n4ch0s.Mips.Decode.{
  OpCode, Instruction, op_add, op_addi, op_addiu, op_addu, op_and, op_andi, op_beq, op_bgez,
  op_bgezal, op_bgtz, op_blez, op_bltz, op_bltzal, op_bne, op_div, op_divu, op_j, op_jal, op_jalr,
  op_jr, op_lb, op_lbu, op_lh, op_lhu, op_lui, op_lw, op_lwl, op_lwr, op_mfhi, op_mflo, op_mthi,
  op_mtlo, op_mult, op_multu, op_nor, op_or, op_ori, op_res, op_sb, op_sh, op_sll, op_sllv, op_slt,
  op_slti, op_sltiu, op_sltu, op_sra, op_srav, op_srl, op_srlv, op_sub, op_subu, op_sw, op_swl,
  op_swr, op_syscall, op_unimp, op_xor, op_xori,
}
use n4ch0s.Machine.{Machine, syscall_exception, illegal_instr_exception}
use n4ch0s.Mips.Execute.Ending.{Outcome, raises_exception}
use n4ch0s.Mips.Execute.Arith.{
  exec_add, exec_addi, exec_addiu, exec_addu, exec_and, exec_andi, exec_div, exec_divu, exec_lui,
  exec_mfhi, exec_mflo, exec_mthi, exec_mtlo, exec_mult, exec_nor, exec_or, exec_ori, exec_sll,
  exec_sllv, exec_slt, exec_slti, exec_sltiu, exec_sltu, exec_sra, exec_srav, exec_srl, exec_srlv,
  exec_sub, exec_subu, exec_xor, exec_xori,
}
use n4ch0s.Mips.Execute.Branch.{
  exec_beq, exec_bgez, link, exec_bgtz, exec_blez, exec_bltz, exec_bne, exec_j, exec_jalr, exec_jr,
}
use n4ch0s.Mips.Execute.Load.{exec_lb, exec_lh, exec_lw, exec_lwl, exec_lwr}
use n4ch0s.Mips.Execute.Store.{exec_sb, exec_sh, exec_sw, exec_swl, exec_swr}

-- The switch. `special` and `bcond` do not come out of `Decode`: they are the `default` case.
unfoldable pub execute : OpCode → Machine → Instruction → Option Outcome
execute op_add m i = exec_add m i
execute op_addi m i = exec_addi m i
execute op_addiu m i = exec_addiu m i
execute op_addu m i = exec_addu m i
execute op_and m i = exec_and m i
execute op_andi m i = exec_andi m i
execute op_beq m i = exec_beq m i
execute op_bgezal m i = exec_bgez (link m) i
execute op_bgez m i = exec_bgez m i
execute op_bgtz m i = exec_bgtz m i
execute op_blez m i = exec_blez m i
execute op_bltzal m i = exec_bltz (link m) i
execute op_bltz m i = exec_bltz m i
execute op_bne m i = exec_bne m i
execute op_div m i = exec_div m i
execute op_divu m i = exec_divu m i
execute op_jal m i = exec_j (link m) i
execute op_j m i = exec_j m i
execute op_jalr m i = exec_jalr m i
execute op_jr m i = exec_jr m i
execute op_lb m i = exec_lb true m i
execute op_lbu m i = exec_lb false m i
execute op_lh m i = exec_lh true m i
execute op_lhu m i = exec_lh false m i
execute op_lui m i = exec_lui m i
execute op_lw m i = exec_lw m i
execute op_lwl m i = exec_lwl m i
execute op_lwr m i = exec_lwr m i
execute op_mfhi m i = exec_mfhi m i
execute op_mflo m i = exec_mflo m i
execute op_mthi m i = exec_mthi m i
execute op_mtlo m i = exec_mtlo m i
execute op_mult m i = exec_mult true m i
execute op_multu m i = exec_mult false m i
execute op_nor m i = exec_nor m i
execute op_or m i = exec_or m i
execute op_ori m i = exec_ori m i
execute op_sb m i = exec_sb m i
execute op_sh m i = exec_sh m i
execute op_sll m i = exec_sll m i
execute op_sllv m i = exec_sllv m i
execute op_slt m i = exec_slt m i
execute op_slti m i = exec_slti m i
execute op_sltiu m i = exec_sltiu m i
execute op_sltu m i = exec_sltu m i
execute op_sra m i = exec_sra m i
execute op_srav m i = exec_srav m i
execute op_srl m i = exec_srl m i
execute op_srlv m i = exec_srlv m i
execute op_sub m i = exec_sub m i
execute op_subu m i = exec_subu m i
execute op_sw m i = exec_sw m i
execute op_swl m i = exec_swl m i
execute op_swr m i = exec_swr m i
execute op_syscall m i = raises_exception syscall_exception m
execute op_xor m i = exec_xor m i
execute op_xori m i = exec_xori m i
execute op_res m i = raises_exception illegal_instr_exception m
execute op_unimp m i = raises_exception illegal_instr_exception m
execute op m i = none
