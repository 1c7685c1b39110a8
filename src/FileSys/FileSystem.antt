-- ===== src/FileSys/FileSystem.antt =====
-- The file system of nachos-3.4/code/filesys/filesys.cc on a disk that no other thread uses meanwhile: the
-- calls of the synchronous disk are its reads and writes of whole sectors.
pub mod Fetching
pub mod Holding
pub mod Unchanged
pub mod Mounted
pub mod Flushing
pub mod Opening
pub mod Reserving
pub mod Formatting
pub mod Lifetime
pub mod Removing
pub mod Undoing
pub mod Creating
mod Tests
use n4ch0s.Base.{
  ℕ, zero, suc, ◌+◌, ◌-◌, ◌*◌, ◌/◌, ◌>>=◌, ◌>>◌, assert, if◌then◌else◌, Option, none, some, List,
  [], ◌++◌, ◌∷◌, not, Bool, true, false, length, replicate,
}
use n4ch0s.Base.Int.{ℤ, pos, negsuc}
use n4ch0s.BitMap
use n4ch0s.BitMap.{BitMap}
use n4ch0s.Disk.{num_sectors}
use n4ch0s.FileSys.FileHeader.{FileHeader, allocate, deallocate}
use n4ch0s.FileSys.Directory
use n4ch0s.FileSys.Directory.{Directory, Entry, is_minus_one}
use n4ch0s.FileSys.OpenFile.{OpenFile, read_sector, write_sector, read_at, write_at, overlay}
use n4ch0s.FileSys.Image.{
  put_word, get_word, put_all, get_all, put_header, get_header, put_entry, get_entry, entry_size,
}

abbrev pub free_map_sector : ℕ
free_map_sector = 0

abbrev pub directory_sector : ℕ
directory_sector = 1

-- `NumSectors / BitsInByte`, `NumDirEntries`, and its product with the size of an entry.
abbrev pub free_map_file_size : ℕ
free_map_file_size = 128

abbrev pub num_dir_entries : ℕ
num_dir_entries = 10

abbrev pub directory_file_size : ℕ
directory_file_size = entry_size * num_dir_entries

pub record FileSystem : Type 0 where
  pub free_map_file : OpenFile
  pub directory_file : OpenFile

-- What a call of `new` finds in the memory: the buffers of `WriteAt`, a table of entries, the words of a
-- bit map and a header.
pub record Memory : Type 0 where
  pub buffer : ℕ → List ℕ
  pub table : List Entry
  pub words : List ℕ
  pub header : FileHeader

-- `FetchFrom` and `WriteBack` of a header.
unfoldable pub fetch_header : (ℕ → List ℕ) → ℤ → Option FileHeader
fetch_header disk sector = read_sector disk sector >>= λ bytes. some (get_header bytes)

unfoldable pub write_header : (ℕ → List ℕ) → FileHeader → ℤ → Option (ℕ → List ℕ)
write_header disk hdr sector = write_sector disk sector (put_header hdr)

-- The constructor of an open file.
unfoldable pub open_sector : (ℕ → List ℕ) → ℤ → Option OpenFile
open_sector disk sector =
    fetch_header disk sector >>= λ h. some (record { hdr = h; seek_position = 0 })

-- `FetchFrom` and `WriteBack` of a directory.
unfoldable pub fetch_directory : OpenFile → (ℕ → List ℕ) → Directory → Option Directory
fetch_directory file disk d =
    read_at file.hdr disk (pos (length d.table * entry_size)) 0 >>= λ bytes. some (record d {
      table =
          get_all get_entry entry_size (length d.table)
            (overlay (put_all put_entry d.table) 0 bytes);
    })

unfoldable pub write_directory :
    OpenFile → (ℕ → List ℕ) → (buffer : ℕ → List ℕ) → Directory → Option (ℕ → List ℕ)
write_directory file disk buffer d =
    write_at file.hdr disk buffer (put_all put_entry d.table) (pos (length d.table * entry_size)) 0
    >>= λ (n, disk'). some disk'

-- `FetchFrom` and `WriteBack` of a bit map.
unfoldable pub fetch_bit_map : OpenFile → (ℕ → List ℕ) → BitMap → Option BitMap
fetch_bit_map file disk bm = read_at file.hdr disk (pos (bm.num_words * 4)) 0 >>= λ bytes.
    some (record bm {
      map = get_all get_word 4 (length bm.map) (overlay (put_all put_word bm.map) 0 bytes);
    })

unfoldable pub write_bit_map :
    OpenFile → (ℕ → List ℕ) → (buffer : ℕ → List ℕ) → BitMap → Option (ℕ → List ℕ)
write_bit_map file disk buffer bm =
    write_at file.hdr disk buffer (put_all put_word bm.map) (pos (bm.num_words * 4)) 0
    >>= λ (n, disk'). some disk'

-- `new Directory` and `new BitMap`, read from their files.
unfoldable pub load_directory : FileSystem → (ℕ → List ℕ) → Memory → Option Directory
load_directory fs disk f =
    fetch_directory fs.directory_file disk (record { table = Directory.init f.table })

unfoldable pub load_free_map : FileSystem → (ℕ → List ℕ) → Memory → Option BitMap
load_free_map fs disk f =
    BitMap.init num_sectors f.words >>= λ m. fetch_bit_map fs.free_map_file disk m

-- The part of `Create` after the name has been added.
unfoldable pub create_file :
    FileSystem
    → (ℕ → List ℕ)
    → Memory
    → BitMap
    → Directory
    → ℤ
    → (initial_size : ℕ) → Option (Bool × (ℕ → List ℕ))
create_file fs disk f m d sector initial_size =
    allocate f.header m initial_size >>= λ (success, h, m').
    let flush = write_header disk h sector >>= λ disk1.
    write_directory fs.directory_file disk1 f.buffer d >>= λ disk2.
    write_bit_map fs.free_map_file disk2 f.buffer m' >>= λ disk3. some (true, disk3) in
    if not success then some (false, disk) else flush

-- The part of `Create` for a name that is not in the directory.
unfoldable pub create_absent :
    FileSystem
    → (ℕ → List ℕ)
    → Memory
    → Directory
    → List ℕ
    → (initial_size : ℕ) → Option (Bool × (ℕ → List ℕ))
create_absent fs disk f d name initial_size = load_free_map fs disk f >>= λ m.
    BitMap.find m >>= λ (sector, m').
    let (added, d') = Directory.add d name sector in
    let rest = create_file fs disk f m' d' sector initial_size in
    if is_minus_one sector
    then some (false, disk)
    else if not added
    then some (false, disk)
    else rest

-- `Create`: whether it succeeds, and the disk.
unfoldable pub create :
    FileSystem → (ℕ → List ℕ) → Memory → List ℕ → (initial_size : ℕ) → Option (Bool × (ℕ → List ℕ))
create fs disk f name initial_size = load_directory fs disk f >>= λ d.
    Directory.find d name >>= λ sector.
    let absent = create_absent fs disk f d name initial_size in
    if not (is_minus_one sector) then some (false, disk) else absent

-- `Open`: `none` in the second place is NULL.
unfoldable pub open_file : FileSystem → (ℕ → List ℕ) → Memory → List ℕ → Option (Option OpenFile)
open_file fs disk f name = load_directory fs disk f >>= λ d. Directory.find d name >>= λ sector.
    elim sector [
      | negsuc n ↦ some none
      | pos k ↦ open_sector disk (pos k) >>= λ file. some (some file)
    ]

-- `Remove`.
unfoldable pub remove : FileSystem → (ℕ → List ℕ) → Memory → List ℕ → Option (Bool × (ℕ → List ℕ))
remove fs disk f name = load_directory fs disk f >>= λ d. Directory.find d name >>= λ sector.
    let present = fetch_header disk sector >>= λ h. load_free_map fs disk f >>= λ m.
    deallocate h m >>= λ m1. BitMap.clear m1 sector >>= λ m2.
    write_bit_map fs.free_map_file disk f.buffer m2 >>= λ disk1.
    write_directory fs.directory_file disk1 f.buffer (Directory.remove d name).1 >>= λ disk2.
    some (true, disk2) in
    if is_minus_one sector then some (false, disk) else present

-- The constructor, for a disk that is to be formatted or not; `table`, `words` and the two headers are what
-- `new` finds in the memory.
unfoldable pub mount : (ℕ → List ℕ) → Option FileSystem
mount disk = open_sector disk (pos free_map_sector) >>= λ map_file.
    open_sector disk (pos directory_sector) >>= λ dir_file.
    some (record { free_map_file = map_file; directory_file = dir_file })

unfoldable pub format :
    (ℕ → List ℕ) → Memory → (map_hdr dir_hdr : FileHeader) → Option (FileSystem × (ℕ → List ℕ))
format disk f map_hdr dir_hdr = BitMap.init num_sectors f.words >>= λ m.
    BitMap.mark m (pos free_map_sector) >>= λ m1. BitMap.mark m1 (pos directory_sector) >>= λ m2.
    allocate map_hdr m2 free_map_file_size >>= λ (map_ok, map_h, m3).
    assert map_ok
    >> (allocate dir_hdr m3 directory_file_size >>= λ (dir_ok, dir_h, m4).
        assert dir_ok
        >> (write_header disk map_h (pos free_map_sector) >>= λ disk1.
            write_header disk1 dir_h (pos directory_sector) >>= λ disk2. mount disk2 >>= λ fs.
            write_bit_map fs.free_map_file disk2 f.buffer m4 >>= λ disk3.
            write_directory fs.directory_file disk3 f.buffer
              (record { table = Directory.init f.table })
            >>= λ disk4. some (fs, disk4)))
