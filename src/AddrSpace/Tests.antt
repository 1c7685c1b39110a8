-- ===== src/AddrSpace/Tests.antt =====
-- Two programs get frames, as in nachos-3.4/code/userprog/addrspace.cc.
use n4ch0s.Base.{◌∷◌, []}
use n4ch0s.BitMap.{BitMap}

abbrev all_frames : BitMap
all_frames = record { num_bits = 128; num_words = 4; map = 0 ∷ 0 ∷ 0 ∷ 0 ∷ [] }
