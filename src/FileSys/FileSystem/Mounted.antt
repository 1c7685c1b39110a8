-- ===== src/FileSys/FileSystem/Mounted.antt =====
-- A disk with a file system of nachos-3.4/code/filesys/filesys.cc: what the two open files hold.
use n4ch0s.Base.{ℕ, length, ◌≡◌, true, ◌∙◌, ◌∷◌, suc, refl, ap, some, List, [], sym, false}
use n4ch0s.BitMap.{BitMap, IsValid, AllWords, is_set, div_round_up}
use n4ch0s.BitMap.Search.{init-test}
use n4ch0s.Disk.{num_sectors}
use n4ch0s.FileSys.Directory
use n4ch0s.FileSys.Directory.{Directory, Entry}
use n4ch0s.FileSys.FileSystem.{
  FileSystem, Memory, load_directory, load_free_map, num_dir_entries, free_map_sector,
  directory_sector, mount, open_sector, fetch_header, create,
}
use n4ch0s.FileSys.OpenFile.{read_sector}
use n4ch0s.FileSys.FileSystem.Fetching.{fetch_directory-Holds, fetch_bit_map-Holds}
use n4ch0s.FileSys.FileSystem.Holding.{Holds, Owns}
use n4ch0s.FileSys.Image.{put_all, put_entry, put_word}
use n4ch0s.FileSys.Image.Laws.{All, IsEntry, IsInt}
use n4ch0s.Base.Int.{pos}

-- A sector that belongs to neither of the two files.
unfoldable pub Free : FileSystem → ℕ → Type 0
Free fs k = (¬ Owns fs.directory_file.hdr k) × (¬ Owns fs.free_map_file.hdr k)

-- The directory file holds the directory, the map file the map of the sectors; the sectors of the two files
-- are marked in it, and are not shared. The headers of the files stand in the sectors that `mount` reads.
pub record Mounted (fs : FileSystem) (disk : ℕ → List ℕ) (d : Directory) (m : BitMap) : Type 0 where
  pub directory : Holds fs.directory_file.hdr disk (put_all put_entry d.table)
  pub map : Holds fs.free_map_file.hdr disk (put_all put_word m.map)
  pub entries : length d.table ≡ num_dir_entries
  pub good : All IsEntry d.table
  pub valid : IsValid m
  pub bits : m.num_bits ≡ num_sectors
  pub directory_reserved : (k : ℕ) → Owns fs.directory_file.hdr k → is_set m k ≡ true
  pub map_reserved : (k : ℕ) → Owns fs.free_map_file.hdr k → is_set m k ≡ true
  pub disjoint : (k : ℕ) → Owns fs.directory_file.hdr k → ¬ Owns fs.free_map_file.hdr k
  pub headers_reserved : (is_set m free_map_sector ≡ true) × (is_set m directory_sector ≡ true)
  pub headers_free : Free fs free_map_sector × Free fs directory_sector
  pub boot : mount disk ≡ some fs

-- The memory that `new` hands out has the size that was asked for.
pub record IsReady (f : Memory) : Type 0 where
  pub buffers : (k : ℕ) → length (f.buffer k) ≡ k
  pub table : length f.table ≡ num_dir_entries
  pub words : length f.words ≡ 32
  pub small : AllWords f.words
  pub header : length f.header.data_sectors ≡ 126
  pub ints : All IsInt f.header.data_sectors
  pub named : All IsEntry f.table

-- `mount` reads two sectors.
pub mount_same :
    (disk disk' : ℕ → List ℕ)
    → disk' free_map_sector ≡ disk free_map_sector
    → disk' directory_sector ≡ disk directory_sector
    → mount disk' ≡ mount disk
unfolding mount open_sector fetch_header read_sector
mount_same disk disk' p q = rw (p, q) refl

pub length-init : (es : List Entry) → length (Directory.init es) ≡ length es
unfolding Directory.init
length-init [] = refl
length-init (e ∷ es) = ap suc (length-init es)

module _ {fs : FileSystem} {disk : ℕ → List ℕ} {d : Directory} {m : BitMap} {f : Memory}
    (on : Mounted fs disk d m) (ready : IsReady f) where
  pub load_directory-Mounted : load_directory fs disk f ≡ some d
  unfolding load_directory
  load_directory-Mounted =
      fetch_directory-Holds fs.directory_file disk (record { table = Directory.init f.table }) d
        on.directory on.good (length-init f.table ∙ ready.table ∙ sym on.entries)

  pub load_free_map-Mounted : load_free_map fs disk f ≡ some m
  unfolding load_free_map
  load_free_map-Mounted =
      let (bm, e, v, n, clear) = init-test num_sectors f.words ready.words ready.small in
      let bits : bm.num_bits ≡ m.num_bits = n ∙ sym on.bits in
      let words : bm.num_words ≡ m.num_words =
        v.words ∙ ap (λ x. div_round_up x 32) bits ∙ sym on.valid.words in
      rw e (
        fetch_bit_map-Holds fs.free_map_file disk bm m on.map on.valid.small bits words
          on.valid.storage v.storage)

-- A name that is in the directory is not created again.
pub create_again :
    {fs : FileSystem} {disk : ℕ → List ℕ} {d : Directory} {m : BitMap} {f : Memory}
    → Mounted fs disk d m
    → IsReady f
    → (name : List ℕ) (size k : ℕ) → Directory.find d name ≡ some (pos k)
    → create fs disk f name size ≡ some (false, disk)
unfolding create
create_again on ready name size k e = rw (load_directory-Mounted on ready, e) refl
