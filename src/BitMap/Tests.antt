-- ===== src/BitMap/Tests.antt =====
-- Concrete maps of nachos-3.4/code/userprog/bitmap.cc.
use n4ch0s.Base.{ℕ, ◌^◌, ◌<◌, ◌∷◌, zero, suc, refl, [], arith}
use n4ch0s.BitMap.{BitMap, AllWords, IsValid, find}
use n4ch0s.BitMap.Search.{Finds, find-Finds}

-- Six bits, of which 0 and 2 are set.
abbrev pub sample : BitMap
sample = record { num_bits = 6; num_words = 1; map = 5 ∷ [] }

one_word : (w : ℕ) → w < 2 ^ 32 → AllWords (w ∷ [])
one_word w h zero = h
one_word w h (suc i) = omega arith

pub sample-IsValid : IsValid sample
sample-IsValid = record { words = refl; storage = refl; small = one_word 5 (omega arith) }

find-Finds_example : Finds sample 0 (find sample)
find-Finds_example = find-Finds sample-IsValid
