-- ===== src/BitMap/Takes.antt =====
-- A run of `Find` calls: the bits taken one after the other.
use n4ch0s.Base.{
  ℕ, ◌+◌, ◌<◌, ◌≤◌, ◌≡◌, ◌||◌, ◌∷◌, zero, suc, refl, Bool, true, false, some, List, [], inl, inr,
  arith, length, has, Distinct, ==_self,
}
use n4ch0s.BitMap.Count.{clear_from, clear_from_mark}
use n4ch0s.BitMap.{BitMap, is_set, IsValid, marked, find, pos}
use n4ch0s.BitMap.Words.{is_set-marked, marked-IsValid}
use native.Mathlib.Decide.{ℕ_discrete}
use n4ch0s.BitMap.Search.{find-Finds}

abbrev pub free_count : BitMap → ℕ
free_count bm = clear_from (is_set bm) 0 bm.num_bits

-- From `m` the bits `ks`, each clear when its turn comes, are marked, which gives `m'`.
pub data Takes (m' : BitMap) : BitMap → List ℕ → Type 0 where
  none_left : Takes m' m' []
  take :
      {m : BitMap} {k : ℕ} {ks : List ℕ}
      → IsValid m
      → k < m.num_bits
      → is_set m k ≡ false
      → Takes m' (marked m k) ks
      → Takes m' m (k ∷ ks)

pub is_set-Takes :
    {m' m : BitMap} {ks : List ℕ} (j : ℕ) → Takes m' m ks → is_set m' j ≡ (has j ks || is_set m j)
is_set-Takes j none_left = refl
is_set-Takes j (take {m} {k} {ks} v h free t) =
    ground (arith, is_set-Takes j t, is_set-marked k v h j)

-- What is taken was clear before.
pub Takes_clear :
    {m' m : BitMap} {ks : List ℕ} (j : ℕ) → Takes m' m ks → has j ks ≡ true → is_set m j ≡ false
Takes_clear j none_left h = cc
Takes_clear j (take {m} {k} {ks} v lt free t) h = elim (ℕ_discrete k j) [
  | yes e ↦ rw (← e) free
  | no e ↦ ground (arith, Takes_clear j t, is_set-marked k v lt j)
]

-- No bit is taken twice.
pub Takes-Distinct : {m' m : BitMap} {ks : List ℕ} → Takes m' m ks → Distinct ks
Takes-Distinct none_left = tt
Takes-Distinct (take {m} {k} {ks} v lt free t) = (fresh, Takes-Distinct t)
  where
    fresh : has k ks ≡ false
    fresh = ground (arith, Takes_clear k t, is_set-marked k v lt k, ==_self k)

pub num_bits-Takes : {m' m : BitMap} {ks : List ℕ} → Takes m' m ks → m'.num_bits ≡ m.num_bits
num_bits-Takes none_left = refl
num_bits-Takes (take v lt free t) = num_bits-Takes t

pub Takes-IsValid : {m' m : BitMap} {ks : List ℕ} → Takes m' m ks → IsValid m → IsValid m'
Takes-IsValid none_left w = w
Takes-IsValid (take {k} v lt free t) w = Takes-IsValid t (marked-IsValid k v lt)

pub free_count-marked :
    {m : BitMap} (k : ℕ)
    → IsValid m
    → k < m.num_bits
    → is_set m k ≡ false
    → free_count m ≡ free_count (marked m k) + 1
free_count-marked {m} k v lt free =
    clear_from_mark (is_set m) (is_set (marked m k)) k 0 m.num_bits (is_set-marked k v lt) free
      (omega arith) (omega arith)

-- Each bit taken lowers the number of clear bits by one.
pub free_count-Takes :
    {m' m : BitMap} {ks : List ℕ} → Takes m' m ks → free_count m ≡ free_count m' + length ks
free_count-Takes none_left = omega arith
free_count-Takes (take {k} v lt free t) =
    omega (arith, free_count-Takes t, free_count-marked k v lt free)

-- Where every bit is set none is free.
pub clear_from_full :
    (s : ℕ → Bool) (i n : ℕ) → ((k : ℕ) → i ≤ k → k < i + n → s k ≡ true) → clear_from s i n ≡ 0
clear_from_full s i zero h = refl
clear_from_full s i (suc n) h = ground (
  arith,
  h i (omega arith) (omega arith),
  clear_from_full s (i + 1) n (λ k p q. h k (omega arith) (omega arith)),
)

-- While a bit is clear `Find` takes one.
pub find_takes :
    {m : BitMap}
    → IsValid m
    → 0 < free_count m
    → (k : ℕ) × (find m ≡ some (pos k, marked m k)) × (k < m.num_bits) × (is_set m k ≡ false)
find_takes {m} v some_free = elim (find-Finds v) [
  | inl (k, f) ↦ (k, f.result, f.inside, f.was_clear)
  | inr (all, e) ↦
      absurd
        (omega (arith, clear_from_full (is_set m) 0 m.num_bits (λ k p q. all k p (omega arith))))
]
