-- ===== src/Syscalls/Numbers/Numeral.antt =====
-- What a decimal numeral is, and that nachos-3.4/code/userprog/exception.cc shows one.
use n4ch0s.Base.{
  ℕ, ◌+◌, ◌-◌, ◌*◌, ◌/◌, ◌%◌, ◌^◌, ◌<◌, ◌≤◌, ◌≡◌, ◌∷◌, ◌++◌, zero, suc, List, [], refl, arith,
  length, inl, inr, Bool-cases, ltb, true, false,
}
use n4ch0s.Syscalls.Numbers.{count_digits}
use n4ch0s.Syscalls.Numbers.Digits.{
  decimal, AllDigits, decimal-AllDigits, length-decimal, count-digits_lem,
}
use native.Mathlib.Nat.{pow-suc}

-- The number that digits stand for, after the digits of `acc`.
unfoldable pub value : (acc : ℕ) → List ℕ → ℕ
value acc [] = acc
value acc (c ∷ cs) = value (10 * acc + (c - 48)) cs

-- Digits that stand for the number, and none more than it needs: 0 has none.
pub record IsNumeral (n : ℕ) (ds : List ℕ) : Type 0 where
  pub digits : AllDigits ds
  pub stands_for : value 0 ds ≡ n
  pub shortest : (k : ℕ) → length ds ≡ suc k → 10 ^ k ≤ n

value-snoc : (acc c : ℕ) (xs : List ℕ) → value acc (xs ++ (c ∷ [])) ≡ 10 * value acc xs + (c - 48)
unfolding value
value-snoc acc c [] = refl
value-snoc acc c (x ∷ xs) = value-snoc (10 * acc + (x - 48)) c xs

value-decimal : (k n : ℕ) → n < 10 ^ k → value 0 (decimal k n) ≡ n
unfolding value decimal
value-decimal zero n h = omega arith
value-decimal (suc k) n h = omega (
  arith,
  value-snoc 0 (n % 10 + 48) (decimal k (n / 10)),
  value-decimal k (n / 10) (omega (arith, pow-suc 10 k, h)),
)

count_digits-positive :
    (fuel n : ℕ) → ltb 0 n ≡ true → count_digits (suc fuel) n ≡ suc (count_digits fuel (n / 10))
unfolding count_digits
count_digits-positive fuel n e = rw e refl

count_digits-zero : (fuel n : ℕ) → ltb 0 n ≡ false → count_digits (suc fuel) n ≡ 0
unfolding count_digits
count_digits-zero fuel n e = rw e refl

count_digits-least : (fuel n k : ℕ) → count_digits fuel n ≡ suc k → 10 ^ k ≤ n
unfolding count_digits
count_digits-least zero n k h = absurd (omega arith)
count_digits-least (suc fuel) n zero h = elim (Bool-cases (ltb 0 n)) [
  | inl e ↦ ground (arith, e)
  | inr e ↦ absurd (omega (arith, h, count_digits-zero fuel n e))
]
count_digits-least (suc fuel) n (suc k) h = elim (Bool-cases (ltb 0 n)) [
  | inl e ↦
      let rest : count_digits fuel (n / 10) ≡ suc k =
        omega (arith, h, count_digits-positive fuel n e) in
      omega (arith, pow-suc 10 k, count_digits-least fuel (n / 10) k rest)
  | inr e ↦ absurd (omega (arith, h, count_digits-zero fuel n e))
]

pub decimal-IsNumeral : (n : ℕ) → n < 10 ^ 10 → IsNumeral n (decimal (count_digits 10 n) n)
decimal-IsNumeral n h = record {
  digits = decimal-AllDigits (count_digits 10 n) n;
  stands_for = value-decimal (count_digits 10 n) n (count-digits_lem 10 n h).0;
  shortest =
      λ k e. count_digits-least 10 n k (omega (arith, length-decimal (count_digits 10 n) n, e));
}
