-- ===== src/BitMap.antt =====
-- The bit map of nachos-3.4/code/userprog/bitmap.cc and bitmap.h: an array of 32-bit words.
pub mod Words
pub mod Search
pub mod Count
pub mod Takes
pub mod Tests
use n4ch0s.Base.{
  ℕ, zero, suc, ◌+◌, ◌*◌, ◌/◌, ◌%◌, ◌^◌, ◌<◌, ◌≡◌, Bool, true, false, not, List, Option, none, some,
  ltb, ◌==◌, if◌then◌else◌, length, get_or, set, bit_and, bit_or, ◌>>=◌,
}
use n4ch0s.Base.Bits.{bit, complement}
use n4ch0s.Base.Int.{ℤ, pos, negsuc}

abbrev pub bits_in_word : ℕ
bits_in_word = 32

-- `divRoundUp` of utility.h.
abbrev pub div_round_up : ℕ → ℕ → ℕ
div_round_up n s = n / s + (if ltb 0 (n % s) then 1 else 0)

pub record BitMap : Type 0 where
  pub num_bits : ℕ
  pub num_words : ℕ
  pub map : List ℕ

-- `ASSERT(which >= 0 && which < numBits)`, and the index.
unfoldable pub in_range : BitMap → ℤ → Option ℕ
in_range bm (pos n) = if ltb n bm.num_bits then some n else none
in_range bm (negsuc n) = none

abbrev pub word : BitMap → ℕ → ℕ
word bm n = get_or bm.map (n / bits_in_word) 0

abbrev pub set_word : BitMap → ℕ → ℕ → BitMap
set_word bm n w = record bm { map = set bm.map (n / bits_in_word) w }

abbrev pub marked : BitMap → ℕ → BitMap
marked bm n = set_word bm n (bit_or (word bm n) (2 ^ (n % bits_in_word)))

pub mark : BitMap → ℤ → Option BitMap
unfolding in_range
mark bm which = in_range bm which >>= λ n. some (marked bm n)

abbrev pub cleared : BitMap → ℕ → BitMap
cleared bm n =
    set_word bm n (bit_and (word bm n) (complement bits_in_word (2 ^ (n % bits_in_word))))

pub clear : BitMap → ℤ → Option BitMap
unfolding in_range
clear bm which = in_range bm which >>= λ n. some (cleared bm n)

pub test : BitMap → ℤ → Option Bool
unfolding in_range
test bm which =
    in_range bm which >>= λ n. some (not (bit_and (word bm n) (2 ^ (n % bits_in_word)) == 0))

-- `for (i = 0; i < numBits; i++) Clear(i)`, with `n` rounds left.
clear_all : ℕ → ℕ → BitMap → Option BitMap
clear_all zero i bm = some bm
clear_all (suc n) i bm = clear bm (pos i) >>= λ bm'. clear_all n (i + 1) bm'

-- The constructor; `fresh` is what `new unsigned int[numWords]` finds in the memory.
pub init : ℕ → List ℕ → Option BitMap
unfolding clear_all
init nitems fresh =
    clear_all nitems 0
      (record { num_bits = nitems; num_words = div_round_up nitems bits_in_word; map = fresh })

find_loop : ℕ → ℕ → BitMap → Option (ℤ × BitMap)
find_loop zero i bm = some (negsuc 0, bm)
find_loop (suc n) i bm =
    let rest = find_loop n (i + 1) bm in
    test bm (pos i) >>= λ used.
    if used then rest else (mark bm (pos i) >>= λ bm'. some (pos i, bm'))

-- The first clear bit, which is marked; -1 if there is none.
pub find : BitMap → Option (ℤ × BitMap)
unfolding find_loop
find bm = find_loop bm.num_bits 0 bm

num_clear_loop : ℕ → ℕ → ℕ → BitMap → Option ℕ
num_clear_loop zero i count bm = some count
num_clear_loop (suc n) i count bm =
    test bm (pos i) >>= λ used. num_clear_loop n (i + 1) (if used then count else count + 1) bm

pub num_clear : BitMap → Option ℕ
unfolding num_clear_loop
num_clear bm = num_clear_loop bm.num_bits 0 0 bm

-- The abstract view: which bits are set.
unfoldable pub is_set : BitMap → ℕ → Bool
is_set bm i = bit (word bm i) (i % bits_in_word) == 1

abbrev pub AllWords : List ℕ → Type 0
AllWords ws = (i : ℕ) → get_or ws i 0 < 2 ^ 32

-- The storage has a word for every bit.
pub record IsValid (bm : BitMap) : Type 0 where
  pub words : bm.num_words ≡ div_round_up bm.num_bits bits_in_word
  pub storage : length bm.map ≡ bm.num_words
  pub small : AllWords bm.map
