-- ===== src/Mips/Execute/Load.antt =====
-- The loads of `OneInstruction` in nachos-3.4/code/machine/mipssim.cc.
use n4ch0s.Base.{
  ℕ, ◌&&◌, ◌==◌, ◌>>◌, if◌then◌else◌, zero, suc, Bool, not, Option, some, bit_or, bit_and, assert,
}
use n4ch0s.Machine.{Machine, load_reg, load_value_reg, address_error_exception, raise_exception}
use n4ch0s.Mips.Decode.{Instruction}
use n4ch0s.Mips.Execute.Ending.{Outcome, retire, after, address, next_pc, stop, rt_of}
use n4ch0s.Mips.Word.{shl32, sra32}
use n4ch0s.Machine.Memory.{read_mem}

-- `nextLoadReg = instr->rt; nextLoadValue = value; break`.
abbrev pub loads : Machine → Instruction → ℕ → Option Outcome
loads m i value = some (retire m (next_pc m) i.rt value)

-- OP_LB with `true`, OP_LBU with `false`.
unfoldable pub exec_lb : Bool → Machine → Instruction → Option Outcome
exec_lb signed m i = after (read_mem m (address m i) 1) λ value m'. loads m' i (
    if not (bit_and value 0x80 == 0) && signed
    then bit_or value 0xffff_ff00
    else bit_and value 0xff)

-- OP_LH with `true`, OP_LHU with `false`.
unfoldable pub exec_lh : Bool → Machine → Instruction → Option Outcome
exec_lh signed m i =
    let tmp = address m i in
    if not (bit_and tmp 1 == 0)
    then some (stop address_error_exception (raise_exception m tmp))
    else after (read_mem m tmp 2) λ value m'. loads m' i (
        if not (bit_and value 0x8000 == 0) && signed
        then bit_or value 0xffff_0000
        else bit_and value 0xffff)

unfoldable pub exec_lw : Machine → Instruction → Option Outcome
exec_lw m i =
    let tmp = address m i in
    if not (bit_and tmp 3 == 0)
    then some (stop address_error_exception (raise_exception m tmp))
    else after (read_mem m tmp 4) λ value m'. loads m' i value

-- The value that the load in progress gives to `rt`, or the register's.
abbrev pub pending_value : Machine → Instruction → ℕ
pending_value m i = if m.registers load_reg == i.rt then m.registers load_value_reg else rt_of m i

-- The switch on `tmp & 0x3`, with the old value and the one read.
abbrev pub merge_left : (byte old value : ℕ) → ℕ
merge_left zero old value = value
merge_left (suc zero) old value = bit_or (bit_and old 0xff) (shl32 value 8)
merge_left (suc (suc zero)) old value = bit_or (bit_and old 0xffff) (shl32 value 16)
merge_left _ old value = bit_or (bit_and old 0xff_ffff) (shl32 value 24)

abbrev pub merge_right : (byte old value : ℕ) → ℕ
merge_right zero old value = bit_or (bit_and old 0xffff_ff00) (bit_and (sra32 value 24) 0xff)
merge_right (suc zero) old value =
    bit_or (bit_and old 0xffff_0000) (bit_and (sra32 value 16) 0xffff)
merge_right (suc (suc zero)) old value =
    bit_or (bit_and old 0xff00_0000) (bit_and (sra32 value 8) 0xff_ffff)
merge_right _ old value = value

unfoldable pub exec_lwl : Machine → Instruction → Option Outcome
exec_lwl m i =
    let tmp = address m i in
    assert (bit_and tmp 3 == 0)
    >> after (read_mem m tmp 4)
        λ value m'. loads m' i (merge_left (bit_and tmp 3) (pending_value m' i) value)

unfoldable pub exec_lwr : Machine → Instruction → Option Outcome
exec_lwr m i =
    let tmp = address m i in
    assert (bit_and tmp 3 == 0)
    >> after (read_mem m tmp 4)
        λ value m'. loads m' i (merge_right (bit_and tmp 3) (pending_value m' i) value)
