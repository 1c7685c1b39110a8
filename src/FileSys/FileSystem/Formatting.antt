-- ===== src/FileSys/FileSystem/Formatting.antt =====
-- The constructor of the file system of nachos-3.4/code/filesys/filesys.cc on a disk that is formatted.
use n4ch0s.Base.{ℕ, length, true, false, List, ◌∙◌, ◌≡◌, refl, some, arith, set, ap, ◌∷◌, []}
use n4ch0s.BitMap.{BitMap, is_set, marked, div_round_up}
use n4ch0s.BitMap.Takes.{free_count, Takes_clear, is_set-Takes}
use n4ch0s.Disk.{num_sectors}
use n4ch0s.FileSys.Directory
use n4ch0s.FileSys.Directory.{Directory, Entry}
use n4ch0s.FileSys.FileHeader.{FileHeader, file_length, sector_size}
use n4ch0s.FileSys.FileSystem.{Memory, FileSystem, format, mount, write_header, open_sector}
use n4ch0s.FileSys.FileSystem.Mounted.{IsReady, Mounted, Free, length-init, mount_same}
use n4ch0s.FileSys.Image.Laws.{All, IsInt, length-put_header}
use n4ch0s.FileSys.OpenFile.{replaced}
use n4ch0s.FileSys.FileSystem.Holding.{Owns, Holds-kept}
use n4ch0s.FileSys.FileHeader.Sectors.{sector_taken, sector_at_byte, sectors_apart}
use n4ch0s.FileSys.Image.{put_header, put_all, put_word}
use n4ch0s.FileSys.FileSystem.Fetching.{fetch_header-written}
use n4ch0s.FileSys.OpenFile.Stored.{length-replaced, sector_written}
use n4ch0s.FileSys.OpenFile.Reading.{Readable}
use n4ch0s.FileSys.FileSystem.Flushing.{write_bit_map-Holds, write_directory-Holds}
use n4ch0s.FileSys.FileSystem.Reserving.{Laid, lay-Laid, init-entries}

-- What a formatted disk has: an empty directory, and a map where all but four sectors are free.
pub record Formatted (f : Memory) (disk : ℕ → List ℕ) (map_hdr dir_hdr : FileHeader) : Type 0 where
  pub fs : FileSystem
  pub disk' : ℕ → List ℕ
  pub m : BitMap
  pub result : format disk f map_hdr dir_hdr ≡ some (fs, disk')
  pub mounted : Mounted fs disk' (record { table = Directory.init f.table }) m
  pub unused : All (λ e. e.in_use ≡ false) (Directory.init f.table)
  pub room : free_count m ≡ 1020

init-unused : (es : List Entry) → All (λ e. e.in_use ≡ false) (Directory.init es)
unfolding Directory.init
init-unused [] = tt
init-unused (e ∷ es) = (refl, init-unused es)

module _ (f : Memory) (disk : ℕ → List ℕ) (map_hdr dir_hdr : FileHeader)
    (laid : Laid f map_hdr dir_hdr) where
  open laid.reserved use {m0, zero_set, one_set}

  abbrev map_h : FileHeader
  map_h = laid.map_made.h

  abbrev dir_h : FileHeader
  dir_h = laid.dir_made.h

  abbrev made_fs : FileSystem
  made_fs = record {
    free_map_file = record { hdr = map_h; seek_position = 0 };
    directory_file = record { hdr = dir_h; seek_position = 0 };
  }

  abbrev headed : ℕ → List ℕ
  headed = replaced (replaced disk 0 (put_header map_h)) 1 (put_header dir_h)

  map_owned :
      (k : ℕ)
      → Owns map_h k
      → (is_set (marked (marked m0 0) 1) k ≡ false) × (is_set laid.map_made.m' k ≡ true)
  map_owned k (j, p, e) =
      let a = laid.map_made.allocated in
      let t = sector_taken a j k p e in
      (Takes_clear k a.takes t, ground (arith, is_set-Takes k a.takes, t))

  dir_owned :
      (k : ℕ)
      → Owns dir_h k
      → (is_set laid.map_made.m' k ≡ false) × (is_set laid.dir_made.m' k ≡ true)
  dir_owned k (j, p, e) =
      let a = laid.dir_made.allocated in
      let t = sector_taken a j k p e in
      (Takes_clear k a.takes t, ground (arith, is_set-Takes k a.takes, t))

  header-Free : (k : ℕ) → is_set (marked (marked m0 0) 1) k ≡ true → Free made_fs k
  unfolding Free
  header-Free k set = (
    λ o. (let p = (dir_owned k o).0 in let q = laid.map_made.still_set k set in cc),
    λ o. (let p = (map_owned k o).0 in cc),
  )

  mount-headed : mount headed ≡ some made_fs
  unfolding mount open_sector
  mount-headed =
      rw
        (
          fetch_header-written headed map_h 0 laid.map_made.storable (omega arith) refl,
          fetch_header-written headed dir_h 1 laid.dir_made.storable (omega arith) refl,
        )
        refl

  -- On a disk with sectors of the full size, the constructor with `format` returns, and leaves a mounted file
  -- system with an empty directory.
  format_laid :
      IsReady f → ((k : ℕ) → length (disk k) ≡ sector_size) → Formatted f disk map_hdr dir_hdr
  unfolding format write_header file_length Free
  format_laid ready full =
      let r = laid.reserved in
      let a = laid.map_made in
      let b = laid.dir_made in
      let full' : (k : ℕ) → length (headed k) ≡ sector_size = λ k.
        length-replaced (replaced disk 0 (put_header map_h)) 1 k sector_size (put_header dir_h)
          (length-put_header dir_h b.storable)
          (length-replaced disk 0 k sector_size (put_header map_h)
            (length-put_header map_h a.storable) (full k)) in
      let readable_map : Readable map_h headed = record {
        data_of = λ i p.
            (let (k, e, l, x) = sector_at_byte a.allocated i p in (k, e, omega (arith, l, r.bits)));
        full = full';
      } in
      let bits : b.m'.num_bits ≡ num_sectors = b.bits ∙ a.bits ∙ r.bits in
      let words : b.m'.num_words ≡ 32 = b.valid.words ∙ ap (λ x. div_round_up x 32) bits in
      let (disk3, e3, h3, kept3) =
        write_bit_map-Holds made_fs f.buffer ready.buffers headed b.m' readable_map
          (sectors_apart a.allocated) b.valid (omega (arith, a.allocated.bytes, words)) in
      let readable_dir : Readable dir_h disk3 = record {
        data_of = λ i p.
            (let (k, e, l, x) = sector_at_byte b.allocated i p in
              (k, e, omega (arith, l, a.bits, r.bits)));
        full = h3.readable.full;
      } in
      let size : length (Directory.init f.table) ≡ 10 = length-init f.table ∙ ready.table in
      let (disk4, e4, h4, kept4) =
        write_directory-Holds made_fs f.buffer ready.buffers disk3
          (record { table = Directory.init f.table }) readable_dir (sectors_apart b.allocated)
          (init-entries f.table ready.named) (omega (arith, b.allocated.bytes)) in
      let apart : (k : ℕ) → Owns dir_h k → ¬ Owns map_h k =
        λ k o p. (let x = (dir_owned k o).0 in let y = (map_owned k p).1 in cc) in
      let zero_free = header-Free 0 zero_set in
      let one_free = header-Free 1 one_set in
      record {
        fs = made_fs;
        disk' = disk4;
        m = b.m';
        result =
            rw
              (
                r.made,
                r.first,
                r.second,
                a.result,
                b.result,
                sector_written disk 0 (put_header map_h) (omega arith),
                sector_written (replaced disk 0 (put_header map_h)) 1 (put_header dir_h)
                    (omega arith),
                mount-headed,
                e3,
                e4,
              )
              refl;
        mounted = record {
          directory = h4;
          map =
              Holds-kept map_h disk3 disk4 (put_all put_word b.m'.map) h3 h4.readable.full
                (λ k o. kept4 k (λ p. apart k p o));
          entries = size;
          good = init-entries f.table ready.named;
          valid = b.valid;
          bits = bits;
          directory_reserved = λ k o. (dir_owned k o).1;
          map_reserved = λ k o. b.still_set k (map_owned k o).1;
          disjoint = apart;
          headers_reserved =
              (b.still_set 0 (a.still_set 0 zero_set), b.still_set 1 (a.still_set 1 one_set));
          headers_free = (zero_free, one_free);
          boot =
              mount_same headed disk4 (kept4 0 zero_free.0 ∙ kept3 0 zero_free.1)
                (kept4 1 one_free.0 ∙ kept3 1 one_free.1)
              ∙ mount-headed;
        };
        unused = init-unused f.table;
        room = omega (arith, r.room, a.left, b.left);
      }

-- On a disk whose sectors have their full size, with structures of the full size in the memory, the constructor
-- with `format` returns: the disk is mounted, the directory has no entry in use, all sectors but four are
-- free, and the constructor without `format` finds the same file system.
pub format-Formatted :
    (f : Memory) (disk : ℕ → List ℕ) (map_hdr dir_hdr : FileHeader)
    → IsReady f
    → ((k : ℕ) → length (disk k) ≡ sector_size)
    → (length map_hdr.data_sectors ≡ 126) × All IsInt map_hdr.data_sectors
    → (length dir_hdr.data_sectors ≡ 126) × All IsInt dir_hdr.data_sectors
    → Formatted f disk map_hdr dir_hdr
format-Formatted f disk map_hdr dir_hdr ready full p q =
    format_laid f disk map_hdr dir_hdr (lay-Laid f map_hdr dir_hdr ready p q) ready full
