-- ===== src/Mips/Execute/Overflow.antt =====
-- The overflow tests of nachos-3.4/code/machine/mipssim.cc against sums of integers.
use n4ch0s.Base.{ℕ, ◌^◌, ◌<◌, ◌≡◌, ◌&&◌, true, false, not, Option, arith, ◌∙◌, inl, inr, Bool-cases}
use n4ch0s.Base.Int.{ℤ, ◌+ℤ◌, ◌-ℤ◌, pos, negsuc, signed32}
use n4ch0s.Machine.{Machine, overflow_exception}
use n4ch0s.Mips.Execute.Ending.{Outcome, raises_exception, sets, rs_of, rt_of}
use n4ch0s.Mips.Word.{signs_differ, add32, sub32}
use n4ch0s.Mips.Execute.Arith.{exec_add, exec_addi, exec_sub}
use n4ch0s.Mips.Decode.{Instruction}

-- The integers that an `int` holds.
abbrev pub IsInt : ℤ → Type 0
IsInt (pos n) = n < 2 ^ 31
IsInt (negsuc n) = n < 2 ^ 31

-- The outcome of OP_ADD, OP_ADDI and OP_SUB for the exact result `z`.
pub data Exact (m : Machine) (num : ℕ) (z : ℤ) : Option Outcome → Type 0 where
  overflows : ¬ IsInt z → Exact m num z (raises_exception overflow_exception m)
  fits : (w : ℕ) → w < 2 ^ 32 → signed32 w ≡ z → Exact m num z (sets m num w)

add_overflow :
    (a b : ℕ)
    → a < 2 ^ 32
    → b < 2 ^ 32
    → (not (signs_differ a b) && signs_differ a (add32 a b)) ≡ true
    → ¬ IsInt (signed32 a +ℤ signed32 b)
unfolding ◌+ℤ◌
add_overflow a b p q e h = ground (arith, e, h)

add_fits :
    (a b : ℕ)
    → a < 2 ^ 32
    → b < 2 ^ 32
    → (not (signs_differ a b) && signs_differ a (add32 a b)) ≡ false
    → signed32 (add32 a b) ≡ signed32 a +ℤ signed32 b
unfolding ◌+ℤ◌
add_fits a b p q e = ground (arith, e)

sub_overflow :
    (a b : ℕ)
    → a < 2 ^ 32
    → b < 2 ^ 32
    → (signs_differ a b && signs_differ a (sub32 a b)) ≡ true
    → ¬ IsInt (signed32 a -ℤ signed32 b)
unfolding ◌-ℤ◌
sub_overflow a b p q e h = ground (arith, e, h)

sub_fits :
    (a b : ℕ)
    → a < 2 ^ 32
    → b < 2 ^ 32
    → (signs_differ a b && signs_differ a (sub32 a b)) ≡ false
    → signed32 (sub32 a b) ≡ signed32 a -ℤ signed32 b
unfolding ◌-ℤ◌
sub_fits a b p q e = ground (arith, e)

-- With 32-bit patterns in its registers, ADD raises an overflow exception exactly when the sum of the two signed registers is not an
-- `int`, and otherwise leaves that sum in `rd`.
pub exec_add-Exact :
    (m : Machine) (i : Instruction)
    → rs_of m i < 2 ^ 32
    → rt_of m i < 2 ^ 32
    → Exact m i.rd (signed32 (rs_of m i) +ℤ signed32 (rt_of m i)) (exec_add m i)
unfolding exec_add
exec_add-Exact m i p q =
    let a = rs_of m i in
    let b = rt_of m i in
    elim (Bool-cases (not (signs_differ a b) && signs_differ a (add32 a b))) [
      | inl e ↦ rw e (overflows (add_overflow a b p q e))
      | inr e ↦ rw e (fits (add32 a b) (omega arith) (add_fits a b p q e))
    ]

same_test :
    (a b : ℕ)
    → (not (signs_differ a b) && signs_differ a (add32 a b))
      ≡ (not (signs_differ a b) && signs_differ b (add32 a b))
same_test a b = ground arith

-- With 32-bit operands, ADDI raises an overflow exception exactly when the sum of the signed register and the signed
-- immediate operand is not an `int`, and otherwise leaves that sum in `rt`.
pub exec_addi-Exact :
    (m : Machine) (i : Instruction)
    → rs_of m i < 2 ^ 32
    → i.extra < 2 ^ 32
    → Exact m i.rt (signed32 (rs_of m i) +ℤ signed32 i.extra) (exec_addi m i)
unfolding exec_addi
exec_addi-Exact m i p q =
    let a = rs_of m i in
    let b = i.extra in
    elim (Bool-cases (not (signs_differ a b) && signs_differ b (add32 a b))) [
      | inl e ↦ rw e (overflows (add_overflow a b p q (same_test a b ∙ e)))
      | inr e ↦ rw e (fits (add32 a b) (omega arith) (add_fits a b p q (same_test a b ∙ e)))
    ]

-- With 32-bit patterns in its registers, SUB raises an overflow exception exactly when the difference of the two signed registers is not
-- an `int`, and otherwise leaves that difference in `rd`.
pub exec_sub-Exact :
    (m : Machine) (i : Instruction)
    → rs_of m i < 2 ^ 32
    → rt_of m i < 2 ^ 32
    → Exact m i.rd (signed32 (rs_of m i) -ℤ signed32 (rt_of m i)) (exec_sub m i)
unfolding exec_sub
exec_sub-Exact m i p q =
    let a = rs_of m i in
    let b = rt_of m i in
    elim (Bool-cases (signs_differ a b && signs_differ a (sub32 a b))) [
      | inl e ↦ rw e (overflows (sub_overflow a b p q e))
      | inr e ↦ rw e (fits (sub32 a b) (omega arith) (sub_fits a b p q e))
    ]
