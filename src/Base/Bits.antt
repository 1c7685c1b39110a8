-- ===== src/Base/Bits.antt =====
-- The bits of a number, and what `&`, `|` and `~` do to each of them, at every width.
use Prim.Native.Nat.{
  ℕ, zero, suc, ◌+◌, ◌-◌, ◌*◌, ◌/◌, ◌%◌, ◌^◌, ◌≤◌, ◌<◌, min, max, bit_and, bit_or, digits, bitwise,
  bit_and-bitwise, bit_or-bitwise,
}
use mathlib.Core.Path.{◌≡◌, refl, ap}
use mathlib.Core.Logic.{◌≢◌}
use native.Mathlib.Nat.{pow-suc, one-le-pow, le_refl}
use native.Mathlib.Omega.{arith}

-- The library's recursion has a bound on the rounds: any two that are large enough agree.
module _ (edge : ℕ → ℕ) (pair : ℕ → ℕ → ℕ) where
  enough_rounds :
      {x : ℕ} (k l y : ℕ) → x ≤ k → x ≤ l → digits edge pair l x y ≡ digits edge pair k x y
  enough_rounds {x = zero} zero zero y h i = refl
  enough_rounds {x = zero} zero (suc l) y h i = refl
  enough_rounds {x = zero} (suc k) zero y h i = refl
  enough_rounds {x = zero} (suc k) (suc l) y h i = refl
  enough_rounds {x = suc x} zero l y h i = absurd (omega arith)
  enough_rounds {x = suc x} (suc k) zero y h i = absurd (omega arith)
  enough_rounds {x = suc x} (suc k) (suc l) y h i =
      rw (enough_rounds {x = suc x / 2} k l (y / 2) (omega arith) (omega arith))

  halving :
      (x y : ℕ)
      → bitwise edge pair (suc x) y
        ≡ pair (suc x % 2) (y % 2) + 2 * bitwise edge pair (suc x / 2) (y / 2)
  halving x y =
      let halved = suc x / 2 in
      omega (arith, enough_rounds {x = halved} halved x (y / 2) (le_refl halved) (omega arith))

pub bit_and_step : (x y : ℕ) → bit_and x y ≡ min (x % 2) (y % 2) + 2 * bit_and (x / 2) (y / 2)
bit_and_step (suc x) y = simp bit_and-bitwise (halving (λ t. 0) min x y)
bit_and_step zero y = simp bit_and-bitwise (omega arith)

pub bit_or_step : (x y : ℕ) → bit_or x y ≡ max (x % 2) (y % 2) + 2 * bit_or (x / 2) (y / 2)
bit_or_step (suc x) y = simp bit_or-bitwise (halving (λ t. t) max x y)
bit_or_step zero y = simp bit_or-bitwise (omega arith)

-- Bit `k` of `a`, from the low end.
abbrev pub bit : ℕ → ℕ → ℕ
bit a zero = a % 2
bit a (suc k) = bit (a / 2) k

pub bit-lt-two : (a k : ℕ) → bit a k < 2
bit-lt-two a zero = omega arith
bit-lt-two a (suc k) = bit-lt-two (a / 2) k

halve_and : (a b : ℕ) → bit_and a b / 2 ≡ bit_and (a / 2) (b / 2)
halve_and a b = omega (arith, bit_and_step a b)

halve_or : (a b : ℕ) → bit_or a b / 2 ≡ bit_or (a / 2) (b / 2)
halve_or a b = omega (arith, bit_or_step a b)

pub bit-bit_and : (a b k : ℕ) → bit (bit_and a b) k ≡ min (bit a k) (bit b k)
bit-bit_and a b zero = omega (arith, bit_and_step a b)
bit-bit_and a b (suc k) = rw (halve_and a b) (bit-bit_and (a / 2) (b / 2) k)

pub bit-bit_or : (a b k : ℕ) → bit (bit_or a b) k ≡ max (bit a k) (bit b k)
bit-bit_or a b zero = omega (arith, bit_or_step a b)
bit-bit_or a b (suc k) = rw (halve_or a b) (bit-bit_or (a / 2) (b / 2) k)

pub bit-zero : (k : ℕ) → bit 0 k ≡ 0
bit-zero zero = refl
bit-zero (suc k) = bit-zero k

halve_pow : (k : ℕ) → 2 ^ suc k / 2 ≡ 2 ^ k
halve_pow k = omega (arith, pow-suc 2 k)

pub bit-pow_self : (k : ℕ) → bit (2 ^ k) k ≡ 1
bit-pow_self zero = refl
bit-pow_self (suc k) = rw (halve_pow k) (bit-pow_self k)

pub bit-pow_ne : (j k : ℕ) → j ≢ k → bit (2 ^ j) k ≡ 0
bit-pow_ne zero zero h = absurd (h refl)
bit-pow_ne zero (suc k) h = bit-zero k
bit-pow_ne (suc j) zero h = omega (arith, pow-suc 2 j)
bit-pow_ne (suc j) (suc k) h = rw (halve_pow j) (bit-pow_ne j k (λ e. h (ap suc e)))

-- `~a` on `w` bits.
abbrev pub complement : ℕ → ℕ → ℕ
complement w a = 2 ^ w - 1 - a

halve_complement : (w a : ℕ) → a < 2 ^ suc w → complement (suc w) a / 2 ≡ complement w (a / 2)
halve_complement w a h = omega (arith, pow-suc 2 w, one-le-pow w 2)

pub bit-complement : (w a k : ℕ) → a < 2 ^ w → k < w → bit (complement w a) k ≡ 1 - bit a k
bit-complement zero a k h lt = absurd (omega arith)
bit-complement (suc w) a zero h lt = omega (arith, pow-suc 2 w, one-le-pow w 2)
bit-complement (suc w) a (suc k) h lt =
    rw (halve_complement w a h)
      (bit-complement w (a / 2) k (omega (arith, pow-suc 2 w)) (omega arith))

zero_of_fuel : (n a : ℕ) → a ≤ n → bit_and a 0 ≡ 0
zero_of_fuel n zero h = refl
zero_of_fuel zero (suc a) h = absurd (omega arith)
zero_of_fuel (suc n) (suc a) h =
    omega (arith, bit_and_step (suc a) 0, zero_of_fuel n (suc a / 2) (omega arith))

pub bit_and-zero : (a : ℕ) → bit_and a 0 ≡ 0
bit_and-zero a = zero_of_fuel a a (le_refl a)

-- `a & (1 << k)` is the bit, at its weight.
pub bit_and-pow : (a k : ℕ) → bit_and a (2 ^ k) ≡ bit a k * 2 ^ k
bit_and-pow a zero = omega (arith, bit_and_step a 1, bit_and-zero (a / 2))
bit_and-pow a (suc k) = omega (
  arith,
  bit_and_step a (2 ^ suc k),
  ap (bit_and (a / 2)) (halve_pow k),
  ap (λ (t : ℕ). bit (a / 2) k * t) (pow-suc 2 k),
  bit_and-pow (a / 2) k,
  pow-suc 2 k,
)

pub bit_or-lt-pow : (w a b : ℕ) → a < 2 ^ w → b < 2 ^ w → bit_or a b < 2 ^ w
bit_or-lt-pow zero zero zero p q = omega arith
bit_or-lt-pow zero zero (suc b) p q = absurd (omega arith)
bit_or-lt-pow zero (suc a) b p q = absurd (omega arith)
bit_or-lt-pow (suc w) a b p q = omega (
  arith,
  bit_or_step a b,
  pow-suc 2 w,
  bit_or-lt-pow w (a / 2) (b / 2) (omega (arith, pow-suc 2 w)) (omega (arith, pow-suc 2 w)),
)

le_of_fuel : (n a b : ℕ) → a ≤ n → bit_and a b ≤ a
le_of_fuel n zero b h = omega (arith, bit_and-bitwise 0 b)
le_of_fuel zero (suc a) b h = absurd (omega arith)
le_of_fuel (suc n) (suc a) b h =
    omega (arith, bit_and_step (suc a) b, le_of_fuel n (suc a / 2) (b / 2) (omega arith))

pub bit_and-le : (a b : ℕ) → bit_and a b ≤ a
bit_and-le a b = le_of_fuel a a b (le_refl a)

pub pow-lt-pow : (w k : ℕ) → k < w → 2 ^ k < 2 ^ w
pow-lt-pow zero k h = absurd (omega arith)
pow-lt-pow (suc w) zero h = omega (arith, pow-suc 2 w, one-le-pow w 2)
pow-lt-pow (suc w) (suc k) h = omega (arith, pow-suc 2 w, pow-suc 2 k, pow-lt-pow w k (omega arith))
