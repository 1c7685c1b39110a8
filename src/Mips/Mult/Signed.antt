-- ===== src/Mips/Mult/Signed.antt =====
-- `Mult` of nachos-3.4/code/machine/mipssim.cc with `signedArith`.
use n4ch0s.Base.{
  ℕ, ◌-◌, ◌*◌, ◌%◌, ◌^◌, ◌<◌, ◌≤◌, ◌≡◌, if◌then◌else◌, true, false, arith, ltb, ◌∙◌, refl, ◌||◌,
  ◌==◌, suc, Bool, inl, inr, Bool-cases, sym,
}
use n4ch0s.Mips.Mult.Product.{double, loop_product, mult_loop-Words, start-Words}
use n4ch0s.Base.Int.{ℤ, signed32, pos, negsuc, ◌*ℤ◌}
use n4ch0s.Mips.Mult.{Acc, negated, neg32, mult_loop, start, mult}
use n4ch0s.Mips.Word.{is_negative}
use native.Mathlib.Nat.{mul-le-mul, mul-pos}

-- The number that two words stand for as a 64-bit `int`.
abbrev pub signed64 : ℕ → ℤ
signed64 w = if ltb w (2 ^ 63) then pos w else negsuc (2 ^ 64 - w - 1)

bounded : (a b : ℕ) → a ≤ 2 ^ 31 → b ≤ 2 ^ 31 → a * b ≤ 2 ^ 62
bounded a b p q = omega (arith, mul-le-mul p q)

-- The sum of hi and lo after the final negation.
negated-double :
    (s : Acc)
    → s.lo < 2 ^ 32
    → s.hi < 2 ^ 32
    → double (negated s).hi (negated s).lo ≡ (2 ^ 64 - double s.hi s.lo) % 2 ^ 64
unfolding double
negated-double s p q = ground arith

end : ℕ → ℕ → Acc
end a b = mult_loop 32 (start a b)

negated_product :
    (a b : ℕ)
    → a < 2 ^ 32
    → b < 2 ^ 32
    → double (negated (mult_loop 32 (start a b))).hi (negated (mult_loop 32 (start a b))).lo
      ≡ (2 ^ 64 - a * b) % 2 ^ 64
negated_product a b p q =
    let w = mult_loop-Words 32 (start a b) (start-Words a b p q) in
    negated-double (mult_loop 32 (start a b)) w.word_lo w.word_hi ∙ rw (loop_product a b p q) refl

positive : (a : ℕ) → is_negative a ≡ false → signed32 a ≡ pos a
positive a e = ground arith

negative : (a : ℕ) → is_negative a ≡ true → a < 2 ^ 32 → signed32 a ≡ negsuc (neg32 a - 1)
negative a e h = ground arith

neg32-le : (a : ℕ) → is_negative a ≡ true → a < 2 ^ 32 → neg32 a ≤ 2 ^ 31
neg32-le a e h = ground arith

neg32-pos : (a : ℕ) → is_negative a ≡ true → a < 2 ^ 32 → 0 < neg32 a
neg32-pos a e h = ground arith

pred_suc : (a : ℕ) → 0 < a → suc (a - 1) ≡ a
pred_suc a h = omega arith

product_pos : (a b : ℕ) → 0 < a → 0 < b → 0 < a * b
product_pos a b p q = mul-pos p q

pos_pos : (a b : ℕ) → pos a *ℤ pos b ≡ pos (a * b)
unfolding ◌*ℤ◌
pos_pos a b = ground arith

pos_neg : (a b : ℕ) → 0 < a → 0 < b → pos a *ℤ negsuc (b - 1) ≡ negsuc (a * b - 1)
unfolding ◌*ℤ◌
pos_neg a b p q = rw (pred_suc b q) (ground (arith, product_pos a b p q))

neg_pos : (a b : ℕ) → 0 < a → 0 < b → negsuc (a - 1) *ℤ pos b ≡ negsuc (a * b - 1)
unfolding ◌*ℤ◌
neg_pos a b p q = rw (pred_suc a p) (ground (arith, product_pos a b p q))

neg_neg : (a b : ℕ) → 0 < a → 0 < b → negsuc (a - 1) *ℤ negsuc (b - 1) ≡ pos (a * b)
unfolding ◌*ℤ◌
neg_neg a b p q = rw (pred_suc a p, pred_suc b q) (ground arith)

-- A product within the range, as it is and negated.
signed64-product : (p : ℕ) → p ≤ 2 ^ 62 → signed64 p ≡ pos p
signed64-product p h = ground arith

signed64-negated : (p : ℕ) → 0 < p → p ≤ 2 ^ 62 → signed64 ((2 ^ 64 - p) % 2 ^ 64) ≡ negsuc (p - 1)
signed64-negated p l h = ground arith

-- The words that `Mult` ends with, for the two factors without their signs.
abbrev result : Bool → ℕ → ℕ → ℕ
result sign a b =
    let s = mult_loop 32 (start a b) in let t = if sign then negated s else s in double t.hi t.lo

result_keeps : (a b : ℕ) → a ≤ 2 ^ 31 → b ≤ 2 ^ 31 → signed64 (result false a b) ≡ pos (a * b)
result_keeps a b p q =
    rw (loop_product a b (omega arith) (omega arith)) (signed64-product (a * b) (bounded a b p q))

result_negates :
    (a b : ℕ)
    → 0 < a
    → 0 < b
    → a ≤ 2 ^ 31
    → b ≤ 2 ^ 31
    → signed64 (result true a b) ≡ negsuc (a * b - 1)
result_negates a b k l p q =
    rw (negated_product a b (omega arith) (omega arith))
      (signed64-negated (a * b) (product_pos a b k l) (bounded a b p q))

nonzero : (a b : ℕ) → ((a == 0) || (b == 0)) ≡ false → (0 < a) × (0 < b)
nonzero a b e = (ground (arith, e), ground (arith, e))

-- The four cases of the signs.
module _ (a b : ℕ) (p : a < 2 ^ 32) (q : b < 2 ^ 32) where
  both_negative :
      is_negative a ≡ true
      → is_negative b ≡ true
      → signed64 (result false (neg32 a) (neg32 b)) ≡ signed32 a *ℤ signed32 b
  both_negative f g =
      result_keeps (neg32 a) (neg32 b) (neg32-le a f p) (neg32-le b g q)
      ∙ sym (
          rw (negative a f p, negative b g q)
            (neg_neg (neg32 a) (neg32 b) (neg32-pos a f p) (neg32-pos b g q)))

  left_negative :
      is_negative a ≡ true
      → is_negative b ≡ false
      → 0 < b
      → signed64 (result true (neg32 a) b) ≡ signed32 a *ℤ signed32 b
  left_negative f g k =
      result_negates (neg32 a) b (neg32-pos a f p) k (neg32-le a f p) (ground (arith, g))
      ∙ sym (rw (negative a f p, positive b g) (neg_pos (neg32 a) b (neg32-pos a f p) k))

  right_negative :
      is_negative a ≡ false
      → is_negative b ≡ true
      → 0 < a
      → signed64 (result true a (neg32 b)) ≡ signed32 a *ℤ signed32 b
  right_negative f g k =
      result_negates a (neg32 b) k (neg32-pos b g q) (ground (arith, f)) (neg32-le b g q)
      ∙ sym (rw (positive a f, negative b g q) (pos_neg a (neg32 b) k (neg32-pos b g q)))

  none_negative :
      is_negative a ≡ false
      → is_negative b ≡ false
      → signed64 (result false a b) ≡ signed32 a *ℤ signed32 b
  none_negative f g =
      result_keeps a b (ground (arith, f)) (ground (arith, g))
      ∙ sym (rw (positive a f, positive b g) (pos_pos a b))

-- A zero factor.
zero_factor :
    (a b : ℕ)
    → a < 2 ^ 32
    → b < 2 ^ 32
    → ((a == 0) || (b == 0)) ≡ true
    → signed64 (double 0 0) ≡ signed32 a *ℤ signed32 b
unfolding double ◌*ℤ◌
zero_factor a b p q e = ground (arith, e)

-- For words taken as signed integers, the two result words are the exact 64-bit product.
pub mult_signed :
    (a b : ℕ)
    → a < 2 ^ 32
    → b < 2 ^ 32
    → signed64 (double (mult a b true).0 (mult a b true).1) ≡ signed32 a *ℤ signed32 b
unfolding mult
mult_signed a b p q = elim (Bool-cases ((a == 0) || (b == 0))) [
  | inl e ↦ rw e (zero_factor a b p q e)
  | inr e ↦ elim (Bool-cases (is_negative a)) [
    | inl f ↦ elim (Bool-cases (is_negative b)) [
      | inl g ↦ rw (e, f, g) (both_negative a b p q f g)
      | inr g ↦ rw (e, f, g) (left_negative a b p q f g (nonzero a b e).1)
    ]
    | inr f ↦ elim (Bool-cases (is_negative b)) [
      | inl g ↦ rw (e, f, g) (right_negative a b p q f g (nonzero a b e).0)
      | inr g ↦ rw (e, f, g) (none_negative a b p q f g)
    ]
  ]
]
