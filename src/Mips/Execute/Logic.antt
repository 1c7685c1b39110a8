-- ===== src/Mips/Execute/Logic.antt =====
-- OP_OR and OP_DIVU of nachos-3.4/code/machine/mipssim.cc.
use n4ch0s.Base.{
  ℕ, ◌+◌, ◌*◌, ◌/◌, ◌%◌, ◌<◌, ◌≤◌, ◌≡◌, ◌≢◌, ◌==◌, zero, suc, refl, ap, Option, inl, inr, arith,
  bit_or, Bool-cases, ==_iff, ==_ne,
}
use n4ch0s.Machine.{Machine}
use n4ch0s.Mips.Execute.Arith.{exec_divu, exec_or, sets_lo_hi}
use n4ch0s.Mips.Decode.{Instruction}
use n4ch0s.Mips.Execute.Ending.{Outcome, rt_of, sets, rs_of}
use n4ch0s.Base.Bits.{bit_or_step}
use native.Mathlib.Nat.{le_refl, div-add-mod, mul_comm, mod-lt}

or_same : (n a : ℕ) → a ≤ n → bit_or a a ≡ a
or_same zero a h = rw (none_left a h) refl
  where
    none_left : (a : ℕ) → a ≤ 0 → a ≡ 0
    none_left a h = omega arith
or_same (suc n) a h = elim (Bool-cases (a == 0)) [
  | inl e ↦ rw ((==_iff a 0).0 e) refl
  | inr e ↦ omega (arith, bit_or_step a a, or_same n (a / 2) (ground (arith, e, h)))
]

-- OR leaves the register `rs` in `rd`: the register `rt` has no part in it.
pub exec_or_copies : (m : Machine) (i : Instruction) → exec_or m i ≡ sets m i.rd (rs_of m i)
exec_or_copies m i = ap (sets m i.rd) (or_same (rs_of m i) (rs_of m i) (le_refl _))

-- LO and HI hold a quotient and a remainder.
pub data Divides (m : Machine) (a b : ℕ) : Option Outcome → Type 0 where
  divides : (q r : ℕ) → q * b + r ≡ a → r < b → Divides m a b (sets_lo_hi m q r)

-- For a divisor other than 0, DIVU leaves the quotient in LO and the remainder, less than the divisor,
-- in HI, of the registers as unsigned numbers.
pub exec_divu-Divides :
    (m : Machine) (i : Instruction)
    → rt_of m i ≢ 0
    → Divides m (rs_of m i) (rt_of m i) (exec_divu m i)
unfolding exec_divu
exec_divu-Divides m i h =
    let a = rs_of m i in
    let b = rt_of m i in
    rw (==_ne b 0 h) (
      divides (a / b) (a % b) (omega (arith, div-add-mod a b, mul_comm b (a / b)))
        (mod-lt a (omega (arith, h))))
