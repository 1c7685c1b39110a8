-- ===== src/Mips/Mult/Product.antt =====
-- What `Mult` of nachos-3.4/code/machine/mipssim.cc leaves in the two words.
use n4ch0s.Base.{
  ℕ, ◌+◌, ◌*◌, ◌/◌, ◌%◌, ◌^◌, ◌<◌, ◌≤◌, ◌≡◌, ◌∙◌, zero, suc, refl, ap, inl, inr, arith, Bool-cases,
  sym, ◌==◌, ◌-◌, ==_iff, false, ◌||◌, true,
}
use native.Mathlib.Nat.{pow-suc, mul-le-mul}
use n4ch0s.Mips.Mult.{Acc, added, shifted, not32, is_negative, mult_loop, start, mult}
use n4ch0s.Mips.Word.{sra32}

-- The number in the low `n` bits of `a`.
abbrev low : ℕ → ℕ → ℕ
low zero a = 0
low (suc n) a = a % 2 + 2 * low n (a / 2)

low-zero : (n : ℕ) → low n 0 ≡ 0
low-zero zero = refl
low-zero (suc n) = omega (arith, low-zero n)

low_self : (n a : ℕ) → a < 2 ^ n → low n a ≡ a
low_self zero a h = omega arith
low_self (suc n) a h = omega (arith, low_self n (a / 2) (omega (arith, pow-suc 2 n)), pow-suc 2 n)

low-add_pow : (n m a : ℕ) → n ≤ m → low n (a + 2 ^ m) ≡ low n a
low-add_pow zero m a h = refl
low-add_pow (suc n) zero a h = absurd (omega arith)
low-add_pow (suc n) (suc m) a h =
    omega (arith, pow-suc 2 m, low-add_pow n m (a / 2) (omega arith), ap (low n) (halved m a))
  where
    halved : (m a : ℕ) → (a + 2 ^ suc m) / 2 ≡ a / 2 + 2 ^ m
    halved m a = omega (arith, pow-suc 2 m)

unfoldable pub double : ℕ → ℕ → ℕ
double hi lo = hi * 2 ^ 32 + lo

-- Every variable is a word.
pub record Words (s : Acc) : Type 0 where
  pub word_a : s.a < 2 ^ 32
  pub word_b_lo : s.b_lo < 2 ^ 32
  pub word_b_hi : s.b_hi < 2 ^ 32
  pub word_lo : s.lo < 2 ^ 32
  pub word_hi : s.hi < 2 ^ 32

added-double :
    (s : Acc)
    → Words s
    → double (added s).hi (added s).lo ≡ (double s.hi s.lo + double s.b_hi s.b_lo) % 2 ^ 64
unfolding double
added-double s w = ground (arith, w.word_b_lo, w.word_lo, w.word_hi, w.word_b_hi)

added-Words : (s : Acc) → Words s → Words (added s)
added-Words s w = record {
  word_a = w.word_a;
  word_b_lo = w.word_b_lo;
  word_b_hi = w.word_b_hi;
  word_lo = omega arith;
  word_hi = omega arith;
}

shifted-double :
    (s : Acc)
    → Words s
    → double (shifted s).b_hi (shifted s).b_lo ≡ 2 * double s.b_hi s.b_lo % 2 ^ 64
unfolding double
shifted-double s w = ground (arith, w.word_b_lo, w.word_b_hi)

shifted-Words : (s : Acc) → Words s → Words (shifted s)
shifted-Words s w = record {
  word_a = ground (arith, w.word_a);
  word_b_lo = omega arith;
  word_b_hi = ground (arith, w.word_b_hi);
  word_lo = w.word_lo;
  word_hi = w.word_hi;
}

pub mult_loop-Words : (n : ℕ) (s : Acc) → Words s → Words (mult_loop n s)
unfolding mult_loop
mult_loop-Words zero s w = w
mult_loop-Words (suc n) s w = elim (Bool-cases (s.a % 2 == 1)) [
  | inr e ↦ rw e (mult_loop-Words n (shifted s) (shifted-Words s w))
  | inl e ↦ elim (Bool-cases (s.a - s.a % 2 == 0)) [
    | inr f ↦
        rw (e, f)
          (mult_loop-Words n (shifted (added s)) (shifted-Words (added s) (added-Words s w)))
    | inl f ↦ rw (e, f) (added-Words s w)
  ]
]

-- The sign that `>>` shifts in stands above the bits that are still read.
low-sra32 : (n a : ℕ) → a < 2 ^ 32 → n ≤ 31 → low n (sra32 a 1) ≡ low n (a / 2)
low-sra32 n a w h = elim (Bool-cases (is_negative a)) [
  | inl e ↦ rw e (ap (low n) (filled a w) ∙ low-add_pow n 31 (a / 2) h)
  | inr e ↦ rw e refl
]
  where
    filled : (a : ℕ) → a < 2 ^ 32 → not32 (not32 a / 2 ^ 1) ≡ a / 2 + 2 ^ 31
    filled a w = omega arith

add_mod : (x y k : ℕ) → x ≡ y + 2 ^ 64 * k → x % 2 ^ 64 ≡ y % 2 ^ 64
add_mod x y k h = omega (arith, h)

-- One round: `V` and `B` are the double words before it, `V'` and `B'` those after it.
round :
    (V B V' B' c d : ℕ)
    → V' ≡ (V + d * B) % 2 ^ 64
    → B' ≡ 2 * B % 2 ^ 64
    → (V' + c * B') % 2 ^ 64 ≡ (V + (d + 2 * c) * B) % 2 ^ 64
round V B V' B' c d p q = sym (
    add_mod (V + (d + 2 * c) * B) (V' + c * B') ((V + d * B) / 2 ^ 64 + c * (2 * B / 2 ^ 64))
      (omega (arith, p, q, ap (λ (t : ℕ). c * t) (whole B' B q))))
  where
    whole : (B' B : ℕ) → B' ≡ 2 * B % 2 ^ 64 → B' + 2 ^ 64 * (2 * B / 2 ^ 64) ≡ 2 * B
    whole B' B q = omega (arith, q)

in_range :
    (s : Acc) → Words s → double s.hi s.lo ≡ (double s.hi s.lo + 0 * double s.b_hi s.b_lo) % 2 ^ 64
unfolding double
in_range s w = omega (arith, w.word_lo, w.word_hi)

-- The round that only shifts.
skips :
    (n : ℕ) (s r : Acc)
    → Words s
    → n ≤ 31
    → s.a % 2 ≡ 0
    → double r.hi r.lo
      ≡ (double s.hi s.lo + low n (sra32 s.a 1) * double (shifted s).b_hi (shifted s).b_lo) % 2 ^ 64
    → double r.hi r.lo ≡ (double s.hi s.lo + low (suc n) s.a * double s.b_hi s.b_lo) % 2 ^ 64
skips n s r w h e ih = rw e (
    ih
    ∙ rw (low-sra32 n s.a w.word_a h) (
        round (double s.hi s.lo) (double s.b_hi s.b_lo) (double s.hi s.lo)
          (double (shifted s).b_hi (shifted s).b_lo) (low n (s.a / 2)) 0 (in_range s w)
          (shifted-double s w)))

added_once :
    (s : Acc)
    → Words s
    → double (added s).hi (added s).lo ≡ (double s.hi s.lo + 1 * double s.b_hi s.b_lo) % 2 ^ 64
added_once s w = omega (arith, added-double s w)

-- The round that ends the loop.
last :
    (n : ℕ) (s : Acc)
    → Words s
    → s.a ≡ 1
    → double (added s).hi (added s).lo
      ≡ (double s.hi s.lo + low (suc n) s.a * double s.b_hi s.b_lo) % 2 ^ 64
last n s w e = rw e (rw (low-zero n) (added_once s w))

-- The round that adds and shifts.
adds :
    (n : ℕ) (s r : Acc)
    → Words s
    → n ≤ 31
    → s.a % 2 ≡ 1
    → double r.hi r.lo
      ≡ (double (added s).hi (added s).lo
          + low n (sra32 s.a 1) * double (shifted s).b_hi (shifted s).b_lo)
        % 2 ^ 64
    → double r.hi r.lo ≡ (double s.hi s.lo + low (suc n) s.a * double s.b_hi s.b_lo) % 2 ^ 64
adds n s r w h e ih = rw e (
    ih
    ∙ rw (low-sra32 n s.a w.word_a h) (
        round (double s.hi s.lo) (double s.b_hi s.b_lo) (double (added s).hi (added s).lo)
          (double (shifted s).b_hi (shifted s).b_lo) (low n (s.a / 2)) 1 (added_once s w)
          (shifted-double s w)))

mult_loop-double :
    (n : ℕ) (s : Acc)
    → Words s
    → n ≤ 32
    → double (mult_loop n s).hi (mult_loop n s).lo
      ≡ (double s.hi s.lo + low n s.a * double s.b_hi s.b_lo) % 2 ^ 64
unfolding mult_loop
mult_loop-double zero s w h = in_range s w
mult_loop-double (suc n) s w h = elim (Bool-cases (s.a % 2 == 1)) [
  | inr e ↦ rw e (
      skips n s (mult_loop n (shifted s)) w (omega arith) (ground (arith, e, ==_iff (s.a % 2) 1))
        (mult_loop-double n (shifted s) (shifted-Words s w) (omega arith)))
  | inl e ↦ elim (Bool-cases (s.a - s.a % 2 == 0)) [
    | inr f ↦
        rw (e, f)
          (adds n s (mult_loop n (shifted (added s))) w (omega arith) ((==_iff (s.a % 2) 1).0 e) (
            mult_loop-double n (shifted (added s)) (shifted-Words (added s) (added-Words s w))
              (omega arith)))
    | inl f ↦
        rw (e, f)
          (last n s w (omega (arith, (==_iff (s.a % 2) 1).0 e, (==_iff (s.a - s.a % 2) 0).0 f)))
  ]
]

below : (a : ℕ) → a < 2 ^ 32 → a ≤ 2 ^ 32 - 1
below a h = omega arith

small : (a b : ℕ) → a < 2 ^ 32 → b < 2 ^ 32 → (double 0 0 + a * double 0 b) % 2 ^ 64 ≡ a * b
unfolding double
small a b p q = omega (arith, mul-le-mul (below a p) (below b q))

pub start-Words : (a b : ℕ) → a < 2 ^ 32 → b < 2 ^ 32 → Words (start a b)
start-Words a b p q = record {
  word_a = p;
  word_b_lo = q;
  word_b_hi = omega arith;
  word_lo = omega arith;
  word_hi = omega arith;
}

-- 32 rounds form the product.
pub loop_product :
    (a b : ℕ)
    → a < 2 ^ 32
    → b < 2 ^ 32
    → double (mult_loop 32 (start a b)).hi (mult_loop 32 (start a b)).lo ≡ a * b
loop_product a b p q =
    mult_loop-double 32 (start a b) (start-Words a b p q) (omega arith)
    ∙ rw (low_self 32 a p) (small a b p q)

product_zero : (a b : ℕ) → ((a == 0) || (b == 0)) ≡ true → double 0 0 ≡ a * b
unfolding double
product_zero a b e = elim (Bool-cases (a == 0)) [
  | inl f ↦ rw ((==_iff a 0).0 f) (omega arith)
  | inr f ↦ rw ((==_iff b 0).0 (simp f at e)) (omega arith)
]

-- For words taken as unsigned numbers, the two result words are the exact 64-bit product.
pub mult_unsigned :
    (a b : ℕ) → a < 2 ^ 32 → b < 2 ^ 32 → double (mult a b false).0 (mult a b false).1 ≡ a * b
unfolding mult
mult_unsigned a b p q = elim (Bool-cases ((a == 0) || (b == 0))) [
  | inl e ↦ rw e (product_zero a b e)
  | inr e ↦ rw e (loop_product a b p q)
]
