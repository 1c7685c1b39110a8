-- ===== src/BitMap/Count.antt =====
-- `NumClear` of nachos-3.4/code/userprog/bitmap.cc against a count of the clear bits.
use n4ch0s.Base.{
  ℕ, Bool, suc, ◌≤◌, ◌+◌, ◌<◌, ◌≡◌, ◌∙◌, ◌||◌, ◌==◌, if◌then◌else◌, zero, refl, ap, false, some,
  inl, inr, arith, Bool-cases,
}
use n4ch0s.BitMap.{num_clear, num_clear_loop, BitMap, is_set}
use native.Mathlib.Decide.{ℕ_discrete}
use n4ch0s.BitMap.Words.{test-is_set}

-- How many of the `n` bits from `i` on are clear in a set of bits.
abbrev pub clear_from : (ℕ → Bool) → ℕ → ℕ → ℕ
clear_from s i zero = 0
clear_from s i (suc n) = (if s i then 0 else 1) + clear_from s (i + 1) n

num_clear_loop-clear_from :
    (bm : BitMap) (n i count : ℕ)
    → n + i ≡ bm.num_bits
    → num_clear_loop n i count bm ≡ some (count + clear_from (is_set bm) i n)
unfolding num_clear_loop
num_clear_loop-clear_from bm zero i count e = ap some (omega arith)
num_clear_loop-clear_from bm (suc n) i count e = elim (Bool-cases (is_set bm i)) [
  | inl used ↦
      rw (test-is_set bm i (omega arith), used)
        (num_clear_loop-clear_from bm n (i + 1) count (omega arith) ∙ ap some (omega arith))
  | inr free ↦
      rw (test-is_set bm i (omega arith), free)
        (num_clear_loop-clear_from bm n (i + 1) (count + 1) (omega arith) ∙ ap some (omega arith))
]

-- `NumClear` never fails and counts the clear bits.
pub num_clear-clear_from :
    (bm : BitMap) → num_clear bm ≡ some (clear_from (is_set bm) 0 bm.num_bits)
unfolding num_clear
num_clear-clear_from bm =
    num_clear_loop-clear_from bm bm.num_bits 0 0 (omega arith) ∙ ap some (omega arith)

pub clear_from_ext :
    (s t : ℕ → Bool) (i n : ℕ)
    → ((k : ℕ) → i ≤ k → k < i + n → s k ≡ t k)
    → clear_from s i n ≡ clear_from t i n
clear_from_ext s t i zero h = refl
clear_from_ext s t i (suc n) h =
    rw
      (
        h i (omega arith) (omega arith),
        clear_from_ext s t (i + 1) n (λ k p q. h k (omega arith) (omega arith)),
      )
      refl

-- Marking one clear bit lowers the count by one.
pub clear_from_mark :
    (s t : ℕ → Bool) (k i n : ℕ)
    → ((j : ℕ) → t j ≡ ((k == j) || s j))
    → s k ≡ false
    → i ≤ k
    → k < i + n
    → clear_from s i n ≡ clear_from t i n + 1
clear_from_mark s t k i zero h free p q = absurd (omega arith)
clear_from_mark s t k i (suc n) h free p q = elim (ℕ_discrete k i) [
  | yes e ↦
      ground (arith, h i, ap s e, clear_from_ext s t (i + 1) n (λ j p' q'. ground (arith, h j)))
  | no e ↦ ground (arith, h i, clear_from_mark s t k (i + 1) n h free (omega arith) (omega arith))
]
