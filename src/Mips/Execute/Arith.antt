-- ===== src/Mips/Execute/Arith.antt =====
-- The arithmetic and logic of `OneInstruction` in nachos-3.4/code/machine/mipssim.cc.
use n4ch0s.Base.{
  ℕ, ◌/◌, ◌%◌, ◌&&◌, ◌==◌, if◌then◌else◌, Bool, not, Option, none, bit_and, bit_or, ltb, bit_xor,
}
use n4ch0s.Machine.{Machine, write_reg, hi_reg, lo_reg, overflow_exception}
use n4ch0s.Mips.Word.{is_negative, neg32, add32, signs_differ, sub32, shl32, not32, slt32, sra32}
use n4ch0s.Mips.Decode.{Instruction}
use n4ch0s.Mips.Execute.Ending.{Outcome, sets, retires, rt_of, rs_of, raises_exception}
use n4ch0s.Mips.Mult.{mult}

unfoldable pub exec_add : Machine → Instruction → Option Outcome
exec_add m i =
    let sum = add32 (rs_of m i) (rt_of m i) in
    if not (signs_differ (rs_of m i) (rt_of m i)) && signs_differ (rs_of m i) sum
    then raises_exception overflow_exception m
    else sets m i.rd sum

unfoldable pub exec_addi : Machine → Instruction → Option Outcome
exec_addi m i =
    let sum = add32 (rs_of m i) i.extra in
    if not (signs_differ (rs_of m i) i.extra) && signs_differ i.extra sum
    then raises_exception overflow_exception m
    else sets m i.rt sum

abbrev pub exec_addiu : Machine → Instruction → Option Outcome
exec_addiu m i = sets m i.rt (add32 (rs_of m i) i.extra)

abbrev pub exec_addu : Machine → Instruction → Option Outcome
exec_addu m i = sets m i.rd (add32 (rs_of m i) (rt_of m i))

abbrev pub exec_and : Machine → Instruction → Option Outcome
exec_and m i = sets m i.rd (bit_and (rs_of m i) (rt_of m i))

abbrev pub exec_andi : Machine → Instruction → Option Outcome
exec_andi m i = sets m i.rt (bit_and (rs_of m i) (bit_and i.extra 0xffff))

-- `/` and `%` on `int`, which round to 0.
abbrev pub div32 : ℕ → ℕ → ℕ
div32 a b =
    let q = (if is_negative a then neg32 a else a) / (if is_negative b then neg32 b else b) in
    if signs_differ a b then neg32 q else q

abbrev pub mod32 : ℕ → ℕ → ℕ
mod32 a b =
    let r = (if is_negative a then neg32 a else a) % (if is_negative b then neg32 b else b) in
    if is_negative a then neg32 r else r

abbrev pub sets_lo_hi : Machine → (lo hi : ℕ) → Option Outcome
sets_lo_hi m lo hi = retires (write_reg (write_reg m lo_reg lo) hi_reg hi)

-- `none` for the one quotient that is not an `int`, where C leaves the division undefined.
unfoldable pub exec_div : Machine → Instruction → Option Outcome
exec_div m i =
    if rt_of m i == 0
    then sets_lo_hi m 0 0
    else if (rs_of m i == 0x8000_0000) && (rt_of m i == 0xffff_ffff)
    then none
    else sets_lo_hi m (div32 (rs_of m i) (rt_of m i)) (mod32 (rs_of m i) (rt_of m i))

unfoldable pub exec_divu : Machine → Instruction → Option Outcome
exec_divu m i =
    if rt_of m i == 0
    then sets_lo_hi m 0 0
    else sets_lo_hi m (rs_of m i / rt_of m i) (rs_of m i % rt_of m i)

abbrev pub exec_lui : Machine → Instruction → Option Outcome
exec_lui m i = sets m i.rt (shl32 i.extra 16)

abbrev pub exec_mfhi : Machine → Instruction → Option Outcome
exec_mfhi m i = sets m i.rd (m.registers hi_reg)

abbrev pub exec_mflo : Machine → Instruction → Option Outcome
exec_mflo m i = sets m i.rd (m.registers lo_reg)

abbrev pub exec_mthi : Machine → Instruction → Option Outcome
exec_mthi m i = sets m hi_reg (rs_of m i)

abbrev pub exec_mtlo : Machine → Instruction → Option Outcome
exec_mtlo m i = sets m lo_reg (rs_of m i)

abbrev pub exec_mult : Bool → Machine → Instruction → Option Outcome
exec_mult signed_arith m i =
    let (hi, lo) = mult (rs_of m i) (rt_of m i) signed_arith in sets_lo_hi m lo hi

abbrev pub exec_nor : Machine → Instruction → Option Outcome
exec_nor m i = sets m i.rd (not32 (bit_or (rs_of m i) (rt_of m i)))

-- The source has `rs` twice.
abbrev pub exec_or : Machine → Instruction → Option Outcome
exec_or m i = sets m i.rd (bit_or (rs_of m i) (rs_of m i))

abbrev pub exec_ori : Machine → Instruction → Option Outcome
exec_ori m i = sets m i.rt (bit_or (rs_of m i) (bit_and i.extra 0xffff))

abbrev pub exec_sll : Machine → Instruction → Option Outcome
exec_sll m i = sets m i.rd (shl32 (rt_of m i) i.extra)

abbrev pub exec_sllv : Machine → Instruction → Option Outcome
exec_sllv m i = sets m i.rd (shl32 (rt_of m i) (bit_and (rs_of m i) 0x1f))

-- A comparison, as the number that it leaves.
abbrev pub flag : Bool → ℕ
flag b = if b then 1 else 0

abbrev pub exec_slt : Machine → Instruction → Option Outcome
exec_slt m i = sets m i.rd (flag (slt32 (rs_of m i) (rt_of m i)))

abbrev pub exec_slti : Machine → Instruction → Option Outcome
exec_slti m i = sets m i.rt (flag (slt32 (rs_of m i) i.extra))

abbrev pub exec_sltiu : Machine → Instruction → Option Outcome
exec_sltiu m i = sets m i.rt (flag (ltb (rs_of m i) i.extra))

abbrev pub exec_sltu : Machine → Instruction → Option Outcome
exec_sltu m i = sets m i.rd (flag (ltb (rs_of m i) (rt_of m i)))

abbrev pub exec_sra : Machine → Instruction → Option Outcome
exec_sra m i = sets m i.rd (sra32 (rt_of m i) i.extra)

abbrev pub exec_srav : Machine → Instruction → Option Outcome
exec_srav m i = sets m i.rd (sra32 (rt_of m i) (bit_and (rs_of m i) 0x1f))

-- `tmp` is an `int`, so these two shift as `exec_sra` does.
abbrev pub exec_srl : Machine → Instruction → Option Outcome
exec_srl m i = sets m i.rd (sra32 (rt_of m i) i.extra)

abbrev pub exec_srlv : Machine → Instruction → Option Outcome
exec_srlv m i = sets m i.rd (sra32 (rt_of m i) (bit_and (rs_of m i) 0x1f))

unfoldable pub exec_sub : Machine → Instruction → Option Outcome
exec_sub m i =
    let diff = sub32 (rs_of m i) (rt_of m i) in
    if signs_differ (rs_of m i) (rt_of m i) && signs_differ (rs_of m i) diff
    then raises_exception overflow_exception m
    else sets m i.rd diff

abbrev pub exec_subu : Machine → Instruction → Option Outcome
exec_subu m i = sets m i.rd (sub32 (rs_of m i) (rt_of m i))

abbrev pub exec_xor : Machine → Instruction → Option Outcome
exec_xor m i = sets m i.rd (bit_xor (rs_of m i) (rt_of m i))

abbrev pub exec_xori : Machine → Instruction → Option Outcome
exec_xori m i = sets m i.rt (bit_xor (rs_of m i) (bit_and i.extra 0xffff))
