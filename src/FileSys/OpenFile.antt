-- ===== src/FileSys/OpenFile.antt =====
-- Reading and writing an open file of nachos-3.4/code/filesys/openfile.cc, from the sectors that its header names. A
-- position is not negative here; the sectors are those that the disk holds when the thread reads them,
-- one after the other, with no other thread writing in between.
pub mod Buffer
pub mod Reading
pub mod Stored
pub mod Around
pub mod Writing
mod Tests
use n4ch0s.Base.{
  ℕ, zero, suc, ◌+◌, ◌-◌, ◌*◌, ◌/◌, ◌%◌, ◌>>=◌, ◌||◌, if◌then◌else◌, Option, none, some, List, [],
  ◌++◌, ltb, leb, take, drop, length, get_or, ◌&&◌, ◌==◌, Bool, not,
}
use n4ch0s.Base.Int.{ℤ, pos, negsuc}
use n4ch0s.FileSys.FileHeader.{FileHeader, sector_size, byte_to_sector, file_length}
use n4ch0s.Disk.{num_sectors}

pub record OpenFile : Type 0 where
  pub hdr : FileHeader
  pub seek_position : ℕ

-- What `ReadRequest` copies: `none` is its ASSERT on the number of the sector.
unfoldable pub read_sector : (ℕ → List ℕ) → ℤ → Option (List ℕ)
read_sector disk (negsuc n) = none
read_sector disk (pos k) = if ltb k num_sectors then some (disk k) else none

-- The loop of `ReadAt` at the sector `i` of the file, with `n` rounds left: the rest of `buf`.
unfoldable pub read_sectors : FileHeader → (ℕ → List ℕ) → (n i : ℕ) → Option (List ℕ)
read_sectors hdr disk zero i = some []
read_sectors hdr disk (suc n) i = byte_to_sector hdr (i * sector_size) >>= λ sector.
    read_sector disk sector >>= λ bytes.
    read_sectors hdr disk n (suc i) >>= λ rest. some (bytes ++ rest)

-- The bytes that `ReadAt` copies to `into`; its result is their number.
unfoldable pub read_at :
    FileHeader → (ℕ → List ℕ) → (num_bytes : ℤ) → (position : ℕ) → Option (List ℕ)
read_at hdr disk (negsuc n) position = some []
read_at hdr disk (pos n) position =
    let m = if ltb (file_length hdr) (position + n) then file_length hdr - position else n in
    let first_sector = position / sector_size in
    let last_sector = (position + m - 1) / sector_size in
    let copied = read_sectors hdr disk (1 + last_sector - first_sector) first_sector >>= λ buf.
    some (take m (drop (position - first_sector * sector_size) buf)) in
    if leb n 0 || leb (file_length hdr) position then some [] else copied

unfoldable pub seek : OpenFile → ℕ → OpenFile
seek f position = record f { seek_position = position }

unfoldable pub read : OpenFile → (ℕ → List ℕ) → ℤ → Option (List ℕ × OpenFile)
read f disk num_bytes = read_at f.hdr disk num_bytes f.seek_position >>= λ bytes.
    some (bytes, record f { seek_position = f.seek_position + length bytes })

abbrev pub replaced : (ℕ → List ℕ) → ℕ → List ℕ → ℕ → List ℕ
replaced disk k bytes i = if i == k then bytes else disk i

-- `disk->WriteRequest`: `none` is its ASSERT on the number of the sector.
unfoldable pub write_sector : (ℕ → List ℕ) → ℤ → List ℕ → Option (ℕ → List ℕ)
write_sector disk (negsuc n) bytes = none
write_sector disk (pos k) bytes = if ltb k num_sectors then some (replaced disk k bytes) else none

-- `bcopy(from, &buf[at], ...)` of the bytes `from`.
abbrev pub overlay : List ℕ → (at_byte : ℕ) → List ℕ → List ℕ
overlay buf at_byte from = take at_byte buf ++ (from ++ drop (at_byte + length from) buf)

-- The last loop of `WriteAt` at the sector `i` of the file, with `n` rounds and the rest of `buf` left.
unfoldable pub write_sectors : FileHeader → (ℕ → List ℕ) → (n i : ℕ) → List ℕ → Option (ℕ → List ℕ)
write_sectors hdr disk zero i buf = some disk
write_sectors hdr disk (suc n) i buf = byte_to_sector hdr (i * sector_size) >>= λ sector.
    write_sector disk sector (take sector_size buf) >>= λ disk'.
    write_sectors hdr disk' n (suc i) (drop sector_size buf)

-- The sectors at the two ends are read first, where they are written in part.
unfoldable pub fill_first :
    FileHeader → (ℕ → List ℕ) → (first_sector : ℕ) → Bool → List ℕ → Option (List ℕ)
fill_first hdr disk first_sector first_aligned buf =
    let filled = read_at hdr disk (pos sector_size) (first_sector * sector_size) >>= λ bytes.
    some (overlay buf 0 bytes) in
    if not first_aligned then filled else some buf

unfoldable pub fill_last :
    FileHeader
    → (ℕ → List ℕ)
    → (first_sector last_sector : ℕ) → (first_aligned last_aligned : Bool) → List ℕ
    → Option (List ℕ)
fill_last hdr disk first_sector last_sector first_aligned last_aligned buf =
    let filled = read_at hdr disk (pos sector_size) (last_sector * sector_size) >>= λ bytes.
    some (overlay buf ((last_sector - first_sector) * sector_size) bytes) in
    if not last_aligned && (not (first_sector == last_sector) || first_aligned)
    then filled
    else some buf

-- The result and the disk; `fresh n` is what `new char[n]` finds in the memory.
unfoldable pub write_at :
    FileHeader
    → (ℕ → List ℕ)
    → (fresh : ℕ → List ℕ) → (from : List ℕ) → (num_bytes : ℤ) → (position : ℕ)
    → Option (ℕ × (ℕ → List ℕ))
write_at hdr disk fresh from (negsuc n) position = some (0, disk)
write_at hdr disk fresh from (pos n) position =
    let m = if ltb (file_length hdr) (position + n) then file_length hdr - position else n in
    let first_sector = position / sector_size in
    let last_sector = (position + m - 1) / sector_size in
    let num = 1 + last_sector - first_sector in
    let first_aligned = position == first_sector * sector_size in
    let last_aligned = position + m == (last_sector + 1) * sector_size in
    let written =
      fill_first hdr disk first_sector first_aligned (fresh (num * sector_size)) >>= λ buf.
      fill_last hdr disk first_sector last_sector first_aligned last_aligned buf >>= λ buf'.
      write_sectors hdr disk num first_sector
        (overlay buf' (position - first_sector * sector_size) (take m from))
      >>= λ disk'. some (m, disk') in
    if leb n 0 || leb (file_length hdr) position then some (0, disk) else written

unfoldable pub write :
    OpenFile
    → (ℕ → List ℕ)
    → (fresh : ℕ → List ℕ) → List ℕ
    → ℤ
    → Option (ℕ × OpenFile × (ℕ → List ℕ))
write f disk fresh from num_bytes =
    write_at f.hdr disk fresh from num_bytes f.seek_position >>= λ (n, disk').
    some (n, record f { seek_position = f.seek_position + n }, disk')
