-- ===== src/Mips/Execute/Precise.antt =====
-- Every branch of the switch in nachos-3.4/code/machine/mipssim.cc keeps the control registers,
-- or stops with the state that `RaiseException` makes of the one before it.
use n4ch0s.Machine.{
  syscall_exception, illegal_instr_exception, overflow_exception, hi_reg, lo_reg,
  address_error_exception, raise_exception, pc_reg, write_reg,
}
use n4ch0s.Base.{ℕ, ◌≡◌, ◌>>◌, refl, Bool, true, false, Option, some, arith, assert, none, ◌<◌}
use n4ch0s.Machine.{Machine, ret_addr_reg}
use n4ch0s.Mips.Execute.{execute, Instruction, Outcome, OpCode, link}
use n4ch0s.Mips.Execute.Arith.{exec_add, exec_addi, exec_sub, exec_div, exec_divu}
use n4ch0s.Mips.Execute.Load.{exec_lb, exec_lh, exec_lw, exec_lwl, exec_lwr}
use n4ch0s.Mips.Execute.Store.{exec_swl, exec_swr}
use n4ch0s.Mips.Execute.Control.{
  Ends, Fields, after-Ends, sets-Ends, keeps, if-Ends, raises-Ends, sets_lo_hi-Ends, KeepsControl,
  update-above,
}
use n4ch0s.Mips.Execute.Branch.{branch}
use n4ch0s.Mips.Execute.Ending.{retire, sets, next_pc, after, address, stop, retires}
use n4ch0s.Mips.Execute.Store.{stores}
use n4ch0s.Mips.Decode.{
  op_rfe, special, bcond, op_add, op_addi, op_addiu, op_addu, op_and, op_andi, op_beq, op_bgez,
  op_bgezal, op_bgtz, op_blez, op_bltz, op_bltzal, op_bne, op_div, op_divu, op_j, op_jal, op_jalr,
  op_jr, op_lb, op_lbu, op_lh, op_lhu, op_lui, op_lw, op_lwl, op_lwr, op_mfhi, op_mflo, op_mthi,
  op_mtlo, op_mult, op_multu, op_nor, op_or, op_ori, op_res, op_sb, op_sh, op_sll, op_sllv, op_slt,
  op_slti, op_sltiu, op_sltu, op_sra, op_srav, op_srl, op_srlv, op_sub, op_subu, op_sw, op_swl,
  op_swr, op_syscall, op_unimp, op_xor, op_xori, op_beq, op_bgezal,
}
use n4ch0s.Mips.Execute.Load.{loads}
use n4ch0s.Machine.Memory.{write_mem, read_mem}
use n4ch0s.Machine.Memory.Registers.{write_mem-Accesses, Accesses-from, read_mem-Accesses}

rd-Ends : (m : Machine) (i : Instruction) (v : ℕ) → Fields i → Ends m (sets m i.rd v)
rd-Ends m i v f = sets-Ends m i.rd v (omega (arith, f.rd_field))

rt-Ends : (m : Machine) (i : Instruction) (v : ℕ) → Fields i → Ends m (sets m i.rt v)
rt-Ends m i v f = sets-Ends m i.rt v (omega (arith, f.rt_field))

branch-Ends : (m : Machine) (i : Instruction) (b : Bool) → Ends m (branch b m i)
unfolding Ends
branch-Ends m i b = ((λ k c. refl), omega arith)

loads-Ends :
    (m m' : Machine) (i : Instruction) (v : ℕ)
    → Fields i
    → m'.registers ≡ m.registers
    → Ends m (loads m' i v)
unfolding Ends
loads-Ends m m' i v f h = (keeps m m' h, f.rt_field)

none-Ends : (m : Machine) → Ends m none
unfolding Ends
none-Ends m = tt

jump-Ends : (m m' : Machine) (p : ℕ) → KeepsControl m m' → Ends m (some (retire m' p 0 0))
unfolding Ends
jump-Ends m m' p k = (k, omega arith)

retires-Ends : (m m' : Machine) → m'.registers ≡ m.registers → Ends m (retires m')
retires-Ends m m' h = jump-Ends m m' (next_pc m') (keeps m m' h)

sets-KeepsControl :
    (m : Machine) (num value : ℕ) → num < pc_reg → KeepsControl m (write_reg m num value)
sets-KeepsControl m num value h k c = update-above m.registers num value k h c

-- What holds of a branch after `link` holds of the whole.
link-Ends : (m : Machine) (p : ℕ) → Ends m (some (retire (link m) p 0 0))
link-Ends m p = jump-Ends m (link m) p (sets-KeepsControl m ret_addr_reg (next_pc m) (omega arith))

stores-Ends : (m : Machine) (a size v : ℕ) → Ends m (stores m a size v)
stores-Ends m a size v =
    after-Ends m a (write_mem m a size v) _ (write_mem-Accesses m a size v)
      (λ u m' h. retires-Ends m m' h)

-- A store after a load from the same address.
stores_later-Ends :
    (m m' : Machine) (a size v : ℕ) → m'.registers ≡ m.registers → Ends m (stores m' a size v)
stores_later-Ends m m' a size v h =
    after-Ends m a (write_mem m' a size v) _
      (Accesses-from m m' a _ h (write_mem-Accesses m' a size v)) (λ u n k. retires-Ends m n k)

assert-Ends : (m : Machine) (b : Bool) (r : Option Outcome) → Ends m r → Ends m (assert b >> r)
unfolding Ends
assert-Ends m true r h = h
assert-Ends m false r h = tt

misaligned-Ends :
    (m : Machine) (i : Instruction)
    → Ends m (some (stop address_error_exception (raise_exception m (address m i))))
unfolding Ends
misaligned-Ends m i = (address m i, refl)

load-Ends :
    (m : Machine) (i : Instruction) (size : ℕ)
    → Fields i
    → (value : ℕ → Machine → ℕ)
    → Ends m (after (read_mem m (address m i) size) λ v m'. loads m' i (value v m'))
load-Ends m i size f value =
    after-Ends m (address m i) (read_mem m (address m i) size) _
      (read_mem-Accesses m (address m i) size) (λ v m' h. loads-Ends m m' i (value v m') f h)

-- A word is read and written back.
update_word-Ends :
    (m : Machine) (a : ℕ) (value : ℕ → Machine → ℕ)
    → Ends m (after (read_mem m a 4) λ v m'. stores m' a 4 (value v m'))
update_word-Ends m a value =
    after-Ends m a (read_mem m a 4) _ (read_mem-Accesses m a 4)
      (λ v m' h. stores_later-Ends m m' a 4 (value v m') h)

pub execute-Ends :
    (op : OpCode) (m : Machine) (i : Instruction) → Fields i → Ends m (execute op m i)
unfolding execute exec_add exec_addi exec_sub exec_div exec_divu exec_lb exec_lh exec_lw exec_lwl
    exec_lwr exec_swl exec_swr
execute-Ends op_add m i f = if-Ends m _ _ _ (raises-Ends m overflow_exception) (rd-Ends m i _ f)
execute-Ends op_addi m i f = if-Ends m _ _ _ (raises-Ends m overflow_exception) (rt-Ends m i _ f)
execute-Ends op_addiu m i f = rt-Ends m i _ f
execute-Ends op_addu m i f = rd-Ends m i _ f
execute-Ends op_and m i f = rd-Ends m i _ f
execute-Ends op_andi m i f = rt-Ends m i _ f
execute-Ends op_beq m i f = branch-Ends m i _
execute-Ends op_bgezal m i f = link-Ends m _
execute-Ends op_bgez m i f = branch-Ends m i _
execute-Ends op_bgtz m i f = branch-Ends m i _
execute-Ends op_blez m i f = branch-Ends m i _
execute-Ends op_bltzal m i f = link-Ends m _
execute-Ends op_bltz m i f = branch-Ends m i _
execute-Ends op_bne m i f = branch-Ends m i _
execute-Ends op_div m i f =
    if-Ends m _ _ _ (sets_lo_hi-Ends m 0 0)
      (if-Ends m _ none _ (none-Ends m) (sets_lo_hi-Ends m _ _))
execute-Ends op_divu m i f = if-Ends m _ _ _ (sets_lo_hi-Ends m 0 0) (sets_lo_hi-Ends m _ _)
execute-Ends op_jal m i f = link-Ends m _
execute-Ends op_j m i f = jump-Ends m m _ (λ k c. refl)
execute-Ends op_jalr m i f =
    jump-Ends m (write_reg m i.rd (next_pc m)) _
      (sets-KeepsControl m i.rd (next_pc m) (omega (arith, f.rd_field)))
execute-Ends op_jr m i f = jump-Ends m m _ (λ k c. refl)
execute-Ends op_lb m i f = load-Ends m i 1 f (λ v m'. _)
execute-Ends op_lbu m i f = load-Ends m i 1 f (λ v m'. _)
execute-Ends op_lh m i f = if-Ends m _ _ _ (misaligned-Ends m i) (load-Ends m i 2 f (λ v m'. _))
execute-Ends op_lhu m i f = if-Ends m _ _ _ (misaligned-Ends m i) (load-Ends m i 2 f (λ v m'. _))
execute-Ends op_lui m i f = rt-Ends m i _ f
execute-Ends op_lw m i f = if-Ends m _ _ _ (misaligned-Ends m i) (load-Ends m i 4 f (λ v m'. _))
execute-Ends op_lwl m i f = assert-Ends m _ _ (load-Ends m i 4 f (λ v m'. _))
execute-Ends op_lwr m i f = assert-Ends m _ _ (load-Ends m i 4 f (λ v m'. _))
execute-Ends op_mfhi m i f = rd-Ends m i _ f
execute-Ends op_mflo m i f = rd-Ends m i _ f
execute-Ends op_mthi m i f = sets-Ends m hi_reg _ (omega arith)
execute-Ends op_mtlo m i f = sets-Ends m lo_reg _ (omega arith)
execute-Ends op_mult m i f = sets_lo_hi-Ends m _ _
execute-Ends op_multu m i f = sets_lo_hi-Ends m _ _
execute-Ends op_nor m i f = rd-Ends m i _ f
execute-Ends op_or m i f = rd-Ends m i _ f
execute-Ends op_ori m i f = rt-Ends m i _ f
execute-Ends op_sb m i f = stores-Ends m _ 1 _
execute-Ends op_sh m i f = stores-Ends m _ 2 _
execute-Ends op_sll m i f = rd-Ends m i _ f
execute-Ends op_sllv m i f = rd-Ends m i _ f
execute-Ends op_slt m i f = rd-Ends m i _ f
execute-Ends op_slti m i f = rt-Ends m i _ f
execute-Ends op_sltiu m i f = rt-Ends m i _ f
execute-Ends op_sltu m i f = rd-Ends m i _ f
execute-Ends op_sra m i f = rd-Ends m i _ f
execute-Ends op_srav m i f = rd-Ends m i _ f
execute-Ends op_srl m i f = rd-Ends m i _ f
execute-Ends op_srlv m i f = rd-Ends m i _ f
execute-Ends op_sub m i f = if-Ends m _ _ _ (raises-Ends m overflow_exception) (rd-Ends m i _ f)
execute-Ends op_subu m i f = rd-Ends m i _ f
execute-Ends op_sw m i f = stores-Ends m _ 4 _
execute-Ends op_swl m i f = assert-Ends m _ _ (update_word-Ends m _ _)
execute-Ends op_swr m i f = assert-Ends m _ _ (update_word-Ends m _ _)
execute-Ends op_syscall m i f = raises-Ends m syscall_exception
execute-Ends op_xor m i f = rd-Ends m i _ f
execute-Ends op_xori m i f = rt-Ends m i _ f
execute-Ends op_res m i f = raises-Ends m illegal_instr_exception
execute-Ends op_unimp m i f = raises-Ends m illegal_instr_exception
execute-Ends special m i f = none-Ends m
execute-Ends bcond m i f = none-Ends m
execute-Ends op_rfe m i f = none-Ends m
