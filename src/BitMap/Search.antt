-- ===== src/BitMap/Search.antt =====
-- `Find` of nachos-3.4/code/userprog/bitmap.cc, and the constructor.
use n4ch0s.Base.{
  ℕ, ◌≤◌, Option, List, length, ◌⊎◌, ◌+◌, ◌<◌, ◌≡◌, ◌∙◌, zero, suc, refl, ap, true, false, some,
  inl, inr, arith, Bool-cases,
}
use n4ch0s.BitMap.{
  find, BitMap, init, is_set, find_loop, clear_all, ℤ, IsValid, pos, negsuc, div_round_up, marked,
  cleared, bits_in_word, AllWords, test,
}
use native.Mathlib.Decide.{ℕ_discrete}
use n4ch0s.BitMap.Words.{clear-cleared, test-is_set, mark-marked, cleared-IsValid, is_set-cleared}

-- Every bit from `i` up to `j` is set.
abbrev pub AllSet : BitMap → ℕ → ℕ → Type 0
AllSet bm i j = (k : ℕ) → i ≤ k → k < j → is_set bm k ≡ true

-- The search from bit `i` on stops at the first clear bit and marks it, or finds none.
pub record FindsAt (bm : BitMap) (i k : ℕ) (r : Option (ℤ × BitMap)) : Type 0 where
  pub from : i ≤ k
  pub inside : k < bm.num_bits
  pub was_clear : is_set bm k ≡ false
  pub first : AllSet bm i k
  pub result : r ≡ some (pos k, marked bm k)

abbrev pub Finds : BitMap → ℕ → Option (ℤ × BitMap) → Type 0
Finds bm i r = ((k : ℕ) × FindsAt bm i k r) ⊎ (AllSet bm i bm.num_bits × (r ≡ some (negsuc 0, bm)))

AllSet-cons : (bm : BitMap) (i j : ℕ) → is_set bm i ≡ true → AllSet bm (i + 1) j → AllSet bm i j
AllSet-cons bm i j h all k p q = elim (ℕ_discrete i k) [
  | yes e ↦ rw (← e) h
  | no e ↦ all k (omega arith) q
]

Finds-cons :
    (bm : BitMap) (i : ℕ) (r : Option (ℤ × BitMap))
    → is_set bm i ≡ true
    → Finds bm (i + 1) r
    → Finds bm i r
Finds-cons bm i r h (inl (k, f)) = inl (
  k,
  record {
    from = omega (arith, f.from);
    inside = f.inside;
    was_clear = f.was_clear;
    first = AllSet-cons bm i k h f.first;
    result = f.result;
  },
)
Finds-cons bm i r h (inr (all, e)) = inr (AllSet-cons bm i bm.num_bits h all, e)

find_loop-Finds :
    (bm : BitMap) (n i : ℕ) → IsValid bm → n + i ≡ bm.num_bits → Finds bm i (find_loop n i bm)
unfolding find_loop
find_loop-Finds bm zero i v e = inr (λ k p q. absurd (omega arith), refl)
find_loop-Finds bm (suc n) i v e = elim (Bool-cases (is_set bm i)) [
  | inl used ↦
      rw (test-is_set bm i (omega arith), used)
        (Finds-cons bm i _ used (find_loop-Finds bm n (i + 1) v (omega arith)))
  | inr free ↦
      rw (test-is_set bm i (omega arith), free, mark-marked i v (omega arith))
        (inl (
          i,
          record {
            from = omega arith;
            inside = omega arith;
            was_clear = free;
            first = λ k p q. absurd (omega arith);
            result = refl;
          },
        ))
]

-- On a valid map `Find` fails no ASSERT and returns the least clear bit, which is then marked, or -1
-- when every bit is set.
pub find-Finds : {bm : BitMap} → IsValid bm → Finds bm 0 (find bm)
unfolding find
find-Finds {bm} v = find_loop-Finds bm bm.num_bits 0 v (omega arith)

abbrev AllClear : BitMap → ℕ → Type 0
AllClear bm i = (k : ℕ) → k < i → is_set bm k ≡ false

clear_all-AllClear :
    (bm : BitMap) (n i : ℕ)
    → IsValid bm
    → n + i ≡ bm.num_bits
    → AllClear bm i
    → (b : BitMap) × (clear_all n i bm ≡ some b)
      × IsValid b
      × (b.num_bits ≡ bm.num_bits)
      × AllClear b bm.num_bits
unfolding clear_all
clear_all-AllClear bm zero i v e all = (bm, refl, v, refl, λ k h. all k (omega arith))
clear_all-AllClear bm (suc n) i v e all = rw (clear-cleared i v (omega arith)) (
    clear_all-AllClear (cleared bm i) n (i + 1) (cleared-IsValid i v (omega arith)) (omega arith)
      λ k h. ground (arith, is_set-cleared i v (omega arith) k, all k))

-- On fresh memory of the size that it asks for, the constructor returns a valid map of `nitems` bits,
-- all clear, whatever words the memory holds.
pub init-test :
    (nitems : ℕ) (fresh : List ℕ)
    → length fresh ≡ div_round_up nitems bits_in_word
    → AllWords fresh
    → (bm : BitMap) × (init nitems fresh ≡ some bm)
      × IsValid bm
      × (bm.num_bits ≡ nitems)
      × ((k : ℕ) → k < nitems → test bm (pos k) ≡ some false)
unfolding init
init-test nitems fresh e small =
    let (b, r, v, n, all) =
      clear_all-AllClear
        (record { num_bits = nitems; num_words = div_round_up nitems bits_in_word; map = fresh })
        nitems 0 (record { words = refl; storage = e; small = small }) (omega arith)
        (λ k h. absurd (omega arith)) in
    (b, r, v, n, λ k h. test-is_set b k (omega arith) ∙ ap some (all k h))
