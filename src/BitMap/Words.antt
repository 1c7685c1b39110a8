-- ===== src/BitMap/Words.antt =====
-- What `Mark`, `Clear` and `Test` do to the set of marked bits.
use n4ch0s.Base.{
  ℕ, ◌*◌, ◌/◌, ◌%◌, ◌^◌, ◌<◌, ◌≡◌, ap, not, some, ◌==◌, if◌then◌else◌, length, bit_and, bit_or,
  arith, length-set, lt→ltb, ◌∙◌, suc, get_or-set, get_or, ◌||◌, zero, ◌&&◌, ==_iff, ==_ne, ◌>>=◌,
  Bool, Option, sym,
}
use n4ch0s.Base.Bits.{
  bit, complement, bit-lt-two, bit_and-pow, bit_or-lt-pow, bit_and-le, pow-lt-pow, bit-bit_or,
  bit-pow_self, bit-bit_and, bit-pow_ne, bit-complement,
}
use n4ch0s.Base.Int.{pos}
use n4ch0s.BitMap.{BitMap, IsValid, mark, clear, test, is_set, word, set_word, marked, cleared}
use native.Mathlib.Nat.{one-le-pow}
use native.Mathlib.Decide.{ℕ_discrete}

word-lt : {bm : BitMap} (i : ℕ) → IsValid bm → i < bm.num_bits → i / 32 < length bm.map
word-lt i v h = ground (arith)

-- The two places of a bit determine its number.
same_place : (i j : ℕ) → i / 32 ≡ j / 32 → i % 32 ≡ j % 32 → i ≡ j
same_place i j p q = omega arith

pow_pos : (k : ℕ) → 0 < 2 ^ k
pow_pos k = omega (arith, one-le-pow k 2)

nonzero_bit : (b p : ℕ) → b < 2 → 0 < p → not (b * p == 0) ≡ (b == 1)
nonzero_bit zero p h q = ground arith
nonzero_bit (suc zero) p h q = ground arith
nonzero_bit (suc (suc b)) p h q = absurd (omega arith)

-- `map[n / 32] & (1 << n % 32)` is nonzero exactly when the bit is set.
masked-test : (w k : ℕ) → not (bit_and w (2 ^ k) == 0) ≡ (bit w k == 1)
masked-test w k = rw (bit_and-pow w k) (nonzero_bit (bit w k) (2 ^ k) (bit-lt-two w k) (pow_pos k))

pub test-is_set : (bm : BitMap) (i : ℕ) → i < bm.num_bits → test bm (pos i) ≡ some (is_set bm i)
unfolding test is_set
test-is_set bm i h = rw (lt→ltb i bm.num_bits h) (ap some (masked-test (word bm i) (i % 32)))

pub word-set_word :
    (bm : BitMap) (i j w : ℕ)
    → i / 32 < length bm.map
    → word (set_word bm i w) j ≡ (if i / 32 == j / 32 then w else word bm j)
word-set_word bm i j w h = get_or-set bm.map (i / 32) (j / 32) w 0 h

set_word-IsValid :
    (bm : BitMap) (i w : ℕ)
    → IsValid bm
    → i / 32 < length bm.map
    → w < 2 ^ 32
    → IsValid (set_word bm i w)
set_word-IsValid bm i w v h small = record {
  words = v.words;
  storage = length-set bm.map (i / 32) w ∙ v.storage;
  small = λ k. ground (arith, get_or-set bm.map (i / 32) k w 0, v.small k);
}

bit-marked : (w k l : ℕ) → (bit (bit_or w (2 ^ k)) l == 1) ≡ ((k == l) || (bit w l == 1))
bit-marked w k l = elim (ℕ_discrete k l) [
  | yes p ↦
      ground
        (arith, bit-bit_or w (2 ^ k) l, bit-pow_self l, ap (λ t. bit (2 ^ t) l) p, bit-lt-two w l)
  | no p ↦ ground (arith, bit-bit_or w (2 ^ k) l, bit-pow_ne k l p, bit-lt-two w l)
]

bit-cleared :
    (w k l : ℕ)
    → k < 32
    → l < 32
    → (bit (bit_and w (complement 32 (2 ^ k))) l == 1) ≡ (not (k == l) && (bit w l == 1))
bit-cleared w k l hk hl = elim (ℕ_discrete k l) [
  | yes p ↦ ground (
    arith,
    bit-bit_and w (complement 32 (2 ^ k)) l,
    bit-complement 32 (2 ^ k) l (pow-lt-pow 32 k hk) hl,
    bit-pow_self l,
    ap (λ t. bit (2 ^ t) l) p,
  )
  | no p ↦ ground (
    arith,
    bit-bit_and w (complement 32 (2 ^ k)) l,
    bit-complement 32 (2 ^ k) l (pow-lt-pow 32 k hk) hl,
    bit-pow_ne k l p,
    bit-lt-two w l,
  )
]

module _ {bm : BitMap} (i : ℕ) (v : IsValid bm) (h : i < bm.num_bits) where
  pub mark-marked : mark bm (pos i) ≡ some (marked bm i)
  unfolding mark
  mark-marked = rw (lt→ltb i bm.num_bits h)

  pub clear-cleared : clear bm (pos i) ≡ some (cleared bm i)
  unfolding clear
  clear-cleared = rw (lt→ltb i bm.num_bits h)

  pub marked-IsValid : IsValid (marked bm i)
  marked-IsValid = set_word-IsValid bm i _ v (word-lt i v h) (
      bit_or-lt-pow 32 (word bm i) (2 ^ (i % 32)) (v.small (i / 32))
        (pow-lt-pow 32 (i % 32) (omega arith)))

  pub cleared-IsValid : IsValid (cleared bm i)
  cleared-IsValid =
      set_word-IsValid bm i _ v (word-lt i v h)
        (omega (arith, v.small (i / 32), bit_and-le (word bm i) (complement 32 (2 ^ (i % 32)))))

  word-marked :
      (j : ℕ)
      → word (marked bm i) j
        ≡ (if i / 32 == j / 32 then bit_or (word bm i) (2 ^ (i % 32)) else word bm j)
  word-marked j = word-set_word bm i j _ (word-lt i v h)

  word-cleared :
      (j : ℕ)
      → word (cleared bm i) j ≡ (
          if i / 32 == j / 32
          then bit_and (word bm i) (complement 32 (2 ^ (i % 32)))
          else word bm j)
  word-cleared j = word-set_word bm i j _ (word-lt i v h)

  pub is_set-marked : (j : ℕ) → is_set (marked bm i) j ≡ ((i == j) || is_set bm j)
  unfolding is_set
  is_set-marked j = elim (ℕ_discrete (i / 32) (j / 32)) [
    | yes p ↦
        rw (word-marked j, (==_iff (i / 32) (j / 32)).1 p, bit-marked (word bm i) (i % 32) (j % 32))
          (ground (arith, ap (λ (t : ℕ). get_or bm.map t 0) p))
    | no p ↦ rw (word-marked j, ==_ne (i / 32) (j / 32) p) (ground arith)
  ]

  pub is_set-cleared : (j : ℕ) → is_set (cleared bm i) j ≡ (not (i == j) && is_set bm j)
  unfolding is_set
  is_set-cleared j = elim (ℕ_discrete (i / 32) (j / 32)) [
    | yes p ↦
        rw
          (
            word-cleared j,
            (==_iff (i / 32) (j / 32)).1 p,
            bit-cleared (word bm i) (i % 32) (j % 32) (omega arith) (omega arith),
          )
          (ground (arith, ap (λ (t : ℕ). get_or bm.map t 0) p))
    | no p ↦ rw (word-cleared j, ==_ne (i / 32) (j / 32) p) (ground arith)
  ]

-- On a valid map `Mark` fails no ASSERT for a bit of the map, and `Test` finds that bit set and every other one as
-- it was.
pub test-mark :
    (bm : BitMap) (i j : ℕ)
    → IsValid bm
    → i < bm.num_bits
    → j < bm.num_bits
    → (mark bm (pos i) >>= λ b. test b (pos j)) ≡ (test bm (pos j) >>= λ t. some ((i == j) || t))
test-mark bm i j v h k = rw (mark-marked i v h) (
    test-is_set (marked bm i) j k
    ∙ ap some (is_set-marked i v h j)
    ∙ sym (ap (λ (o : Option Bool). o >>= λ t. some ((i == j) || t)) (test-is_set bm j k)))

-- On a valid map `Clear` fails no ASSERT for a bit of the map, and `Test` finds that bit clear and every other one
-- as it was.
pub test-clear :
    (bm : BitMap) (i j : ℕ)
    → IsValid bm
    → i < bm.num_bits
    → j < bm.num_bits
    → (clear bm (pos i) >>= λ b. test b (pos j))
      ≡ (test bm (pos j) >>= λ t. some (not (i == j) && t))
test-clear bm i j v h k = rw (clear-cleared i v h) (
    test-is_set (cleared bm i) j k
    ∙ ap some (is_set-cleared i v h j)
    ∙ sym (ap (λ (o : Option Bool). o >>= λ t. some (not (i == j) && t)) (test-is_set bm j k)))
