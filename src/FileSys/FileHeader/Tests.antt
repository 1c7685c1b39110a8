-- ===== src/FileSys/FileHeader/Tests.antt =====
-- Concrete headers of nachos-3.4/code/filesys/filehdr.cc.
use n4ch0s.Base.{
  ℕ, ◌<◌, ◌≤◌, ◌≡◌, true, false, some, List, arith, length, replicate, length-replicate,
}
use n4ch0s.FileSys.FileHeader.{FileHeader, num_direct, allocate, sector_size, deallocate}
use n4ch0s.BitMap.{is_set, div_round_up, BitMap}
use n4ch0s.BitMap.Takes.{free_count}
use n4ch0s.Base.Int.{pos}
use n4ch0s.BitMap.Tests.{sample, sample-IsValid}
use n4ch0s.FileSys.FileHeader.Allocate.{Allocated, allocate_refuses, allocate-Allocated}
use n4ch0s.FileSys.FileHeader.Deallocate.{deallocate-allocate}

abbrev blank : FileHeader
blank = record { num_bytes = 0; num_sectors = 0; data_sectors = replicate num_direct (pos 0) }

blank_size : length blank.data_sectors ≡ num_direct
blank_size = length-replicate num_direct (pos 0)

-- The sample map has four clear bits, and 600 bytes take two sectors.
enough_free : div_round_up 600 sector_size ≤ free_count sample
unfolding is_set
enough_free = omega arith

too_few_free : free_count sample < div_round_up 4000 sector_size
unfolding is_set
too_few_free = omega arith

deallocate-allocate_example :
    (hdr' : FileHeader) × (m' : BitMap) × (q : BitMap) × (allocate blank sample 600
      ≡ some (true, hdr', m'))
    × (deallocate hdr' m' ≡ some q)
    × ((j : ℕ) → is_set q j ≡ is_set sample j)
deallocate-allocate_example =
    deallocate-allocate blank sample 600 sample-IsValid blank_size (omega arith) enough_free

allocate-Allocated_example :
    (ks : List ℕ) × (hdr' : FileHeader) × (m' : BitMap) × (allocate blank sample 600
      ≡ some (true, hdr', m'))
    × Allocated 600 hdr' sample m' ks
allocate-Allocated_example =
    allocate-Allocated blank sample 600 sample-IsValid blank_size (omega arith) enough_free

allocate_refuses_example :
    (hdr' : FileHeader) × (allocate blank sample 4000 ≡ some (false, hdr', sample))
allocate_refuses_example = allocate_refuses blank sample 4000 too_few_free
