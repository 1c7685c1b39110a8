-- ===== src/FileSys/FileHeader.antt =====
-- The file header of nachos-3.4/code/filesys/filehdr.cc and filehdr.h: the sectors that hold a file's data.
pub mod Allocate
pub mod Deallocate
pub mod Ints
pub mod Sectors
pub mod Making
mod Tests
use n4ch0s.Base.{
  ℕ, get_elem?, ◌+◌, ◌/◌, ◌>>=◌, ◌>>◌, if◌then◌else◌, zero, suc, Bool, true, false, Option, none,
  some, List, set, ltb, assert,
}
use n4ch0s.BitMap
use n4ch0s.BitMap.{BitMap, div_round_up}
use n4ch0s.Base.Int.{ℤ}

-- `SectorSize` of nachos-3.4/code/machine/disk.h.
abbrev pub sector_size : ℕ
sector_size = 512

-- `(SectorSize - 2 * sizeof(int)) / sizeof(int)`.
abbrev pub num_direct : ℕ
num_direct = 126

pub record FileHeader : Type 0 where
  pub num_bytes : ℕ
  pub num_sectors : ℕ
  pub data_sectors : List ℤ

-- `dataSectors[i] = sector`; `none` is a write behind the array, which C++ does not check.
pub store_sector : FileHeader → ℕ → ℤ → Option FileHeader
store_sector hdr i sector =
    if ltb i num_direct
    then some (record hdr { data_sectors = set hdr.data_sectors i sector })
    else none

-- `for (i = 0; i < numSectors; i++) dataSectors[i] = freeMap->Find()`, with `n` rounds left.
allocate_loop : ℕ → ℕ → FileHeader → BitMap → Option (FileHeader × BitMap)
allocate_loop zero i hdr free_map = some (hdr, free_map)
allocate_loop (suc n) i hdr free_map = BitMap.find free_map >>= λ (sector, m).
    store_sector hdr i sector >>= λ h. allocate_loop n (i + 1) h m

pub allocate : FileHeader → BitMap → ℕ → Option (Bool × FileHeader × BitMap)
unfolding allocate_loop
allocate hdr free_map file_size =
    let sectors = div_round_up file_size sector_size in
    let sized = record hdr { num_bytes = file_size; num_sectors = sectors } in
    BitMap.num_clear free_map >>= λ clear.
    if ltb clear sectors
    then some (false, sized, free_map)
    else (allocate_loop sectors 0 sized free_map >>= λ (h, m). some (true, h, m))

-- The rounds of `Deallocate`: the sector ought to be marked, and is cleared.
deallocate_loop : ℕ → ℕ → FileHeader → BitMap → Option BitMap
deallocate_loop zero i hdr free_map = some free_map
deallocate_loop (suc n) i hdr free_map = get_elem? hdr.data_sectors i >>= λ sector.
    BitMap.test free_map sector >>= λ used.
    assert used >> (BitMap.clear free_map sector >>= λ m. deallocate_loop n (i + 1) hdr m)

pub deallocate : FileHeader → BitMap → Option BitMap
unfolding deallocate_loop
deallocate hdr free_map = deallocate_loop hdr.num_sectors 0 hdr free_map

unfoldable pub byte_to_sector : FileHeader → ℕ → Option ℤ
byte_to_sector hdr offset = get_elem? hdr.data_sectors (offset / sector_size)

unfoldable pub file_length : FileHeader → ℕ
file_length hdr = hdr.num_bytes
