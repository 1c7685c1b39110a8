-- ===== src/Syscalls/Numbers/Digits.antt =====
-- The digits that `SC_PrintInt` of nachos-3.4/code/userprog/exception.cc shows, and `SC_ReadInt` on them.
use mathlib.Core.List.{append_assoc}
use n4ch0s.Base.{
  ℕ, ◌+◌, ◌-◌, ◌*◌, ◌/◌, ◌%◌, ◌^◌, ◌<◌, ◌≤◌, ◌≡◌, ◌∙◌, ◌∷◌, ◌++◌, zero, suc, List, [], true, false,
  refl, ap, sym, arith, length, set, drop, inl, inr, length-append, length-set, Bool-cases, ltb,
  leb,
}
use n4ch0s.Syscalls.Numbers.{count_digits, put_digits, digits_value, not_digit}
use native.Mathlib.Nat.{pow-suc}

-- The last `k` decimal digits of a number.
unfoldable pub decimal : (k n : ℕ) → List ℕ
decimal zero n = []
decimal (suc k) n = decimal k (n / 10) ++ ((n % 10 + 48) ∷ [])

abbrev pub AllDigits : List ℕ → Type 0
AllDigits [] = Unit {0}
AllDigits (c ∷ cs) = (48 ≤ c) × (c ≤ 57) × AllDigits cs

AllDigits-snoc : (xs : List ℕ) (c : ℕ) → AllDigits xs → 48 ≤ c → c ≤ 57 → AllDigits (xs ++ (c ∷ []))
AllDigits-snoc [] c w h g = (h, g, tt)
AllDigits-snoc (x ∷ xs) c w h g = (w.0, w.1, AllDigits-snoc xs c w.2 h g)

pub decimal-AllDigits : (k n : ℕ) → AllDigits (decimal k n)
unfolding decimal
decimal-AllDigits zero n = tt
decimal-AllDigits (suc k) n =
    AllDigits-snoc (decimal k (n / 10)) (n % 10 + 48) (decimal-AllDigits k (n / 10)) (omega arith)
      (omega arith)

pub length-decimal : (k n : ℕ) → length (decimal k n) ≡ k
unfolding decimal
length-decimal zero n = refl
length-decimal (suc k) n =
    omega
      (arith, length-append (decimal k (n / 10)) ((n % 10 + 48) ∷ []), length-decimal k (n / 10))

-- Enough digits are counted, at most as many as there is fuel, and one at least of a positive number.
pub count-digits_lem :
    (fuel n : ℕ)
    → n < 10 ^ fuel
    → (n < 10 ^ count_digits fuel n)
      × (count_digits fuel n ≤ fuel)
      × (0 < n → 0 < count_digits fuel n)
unfolding count_digits
count-digits_lem zero n h = (omega arith, omega arith, λ p. omega arith)
count-digits_lem (suc fuel) n h =
    let (bound, few, some_digit) =
      count-digits_lem fuel (n / 10) (omega (arith, pow-suc 10 fuel)) in
    elim (Bool-cases (ltb 0 n)) [
      | inl e ↦ rw e (
        omega (arith, pow-suc 10 (count_digits fuel (n / 10)), bound),
        omega (arith, few),
        λ p. omega arith,
      )
      | inr e ↦ rw e (ground (arith, e), omega arith, λ p. absurd (ground (arith, e)))
    ]

drop-set : (xs : List ℕ) (i v : ℕ) → i < length xs → drop i (set xs i v) ≡ v ∷ drop (suc i) xs
drop-set [] i v h = absurd (omega arith)
drop-set (x ∷ xs) zero v h = refl
drop-set (x ∷ xs) (suc i) v h = drop-set xs i v (omega arith)

pub put_digits-decimal :
    (k n : ℕ) (buffer : List ℕ)
    → k ≤ length buffer
    → put_digits k n buffer ≡ decimal k n ++ drop k buffer
unfolding put_digits decimal
put_digits-decimal zero n buffer h = refl
put_digits-decimal (suc k) n buffer h =
    put_digits-decimal k (n / 10) (set buffer k (n % 10 + 48))
      (omega (arith, length-set buffer k (n % 10 + 48)))
    ∙ ap (λ x. decimal k (n / 10) ++ x) (drop-set buffer k (n % 10 + 48) (omega arith))
    ∙ sym (append_assoc (decimal k (n / 10)) ((n % 10 + 48) ∷ []) (drop (suc k) buffer))

digits_value-digit :
    (limit c : ℕ) (tail : List ℕ) (acc : ℕ)
    → not_digit c ≡ false
    → leb (10 * acc + (c - 48)) limit ≡ true
    → digits_value limit (c ∷ tail) acc ≡ digits_value limit tail (10 * acc + (c - 48))
unfolding digits_value
digits_value-digit limit c tail acc h g = rw (h, g) refl

pub digits_value-decimal :
    (limit k n : ℕ) (tail : List ℕ)
    → n < 10 ^ k
    → n ≤ limit
    → digits_value limit (decimal k n ++ tail) 0 ≡ digits_value limit tail n
unfolding decimal digits_value
digits_value-decimal limit zero n tail h g = ap (digits_value limit tail) (omega arith)
digits_value-decimal limit (suc k) n tail h g =
    ap (λ x. digits_value limit x 0) (append_assoc (decimal k (n / 10)) ((n % 10 + 48) ∷ []) tail)
    ∙ digits_value-decimal limit k (n / 10) ((n % 10 + 48) ∷ tail) (omega (arith, pow-suc 10 k))
        (omega arith)
    ∙ digits_value-digit limit (n % 10 + 48) tail (n / 10) (ground arith) (ground arith)
    ∙ ap (digits_value limit tail) (omega arith)
