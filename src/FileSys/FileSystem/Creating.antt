-- ===== src/FileSys/FileSystem/Creating.antt =====
-- `Create` of nachos-3.4/code/filesys/filesys.cc where it succeeds.
use n4ch0s.Base.{ℕ, true, false, List, ◌∙◌, ◌<◌, ◌≤◌, ◌≡◌, ◌≢◌, some, arith, ◌^◌, refl}
use n4ch0s.Base.Int.{ℤ, pos}
use n4ch0s.BitMap.{BitMap, is_set, marked, div_round_up}
use n4ch0s.BitMap.Words.{is_set-marked, marked-IsValid}
use n4ch0s.BitMap.Takes.{free_count, find_takes, free_count-marked}
use n4ch0s.Disk.{num_sectors}
use n4ch0s.FileSys.Directory
use n4ch0s.FileSys.Directory.{Directory}
use n4ch0s.FileSys.Directory.Entries.{add-entries, find_before_add}
use n4ch0s.FileSys.FileHeader.{FileHeader, sector_size}
use n4ch0s.FileSys.FileHeader.Allocate.{Allocated}
use n4ch0s.FileSys.FileSystem.{FileSystem, Memory, create, create_absent, create_file}
use n4ch0s.FileSys.FileSystem.Mounted.{
  Mounted, IsReady, load_directory-Mounted, load_free_map-Mounted, Free,
}
use n4ch0s.FileSys.FileSystem.Flushing.{flush-Flushed}
use n4ch0s.FileSys.Image.{put_header}
use n4ch0s.FileSys.Image.Laws.{IsStorable}
use n4ch0s.FileSys.FileHeader.Making.{allocate-Made}

-- What a successful `Create` of `size` bytes under a name leaves: the sector `k` holds a header `h` for
-- sectors `ks` that were free, and the directory has the name at that sector.
pub record Created (fs : FileSystem) (f : Memory) (disk : ℕ → List ℕ) (d : Directory) (m : BitMap)
    (name : List ℕ) (size : ℕ) : Type 0 where
  pub disk' : ℕ → List ℕ
  pub k : ℕ
  pub h : FileHeader
  pub m' : BitMap
  pub ks : List ℕ
  pub result : create fs disk f name size ≡ some (true, disk')
  pub was_free : is_set m k ≡ false
  pub on_disk : k < num_sectors
  pub allocated : Allocated size h (marked m k) m' ks
  pub mounted : Mounted fs disk' (Directory.add d name (pos k)).1 m'
  pub storable : IsStorable h
  pub header : disk' k ≡ put_header h
  pub others : (j : ℕ) → j ≢ k → Free fs j → disk' j ≡ disk j

pub unreserved :
    (fs : FileSystem) (disk : ℕ → List ℕ) (d : Directory) (m : BitMap) (k : ℕ)
    → Mounted fs disk d m
    → is_set m k ≡ false
    → Free fs k
unfolding Free
unreserved fs disk d m k on free =
    (λ o. (let p = on.directory_reserved k o in cc), λ o. (let p = on.map_reserved k o in cc))

-- On a mounted disk, with a directory that takes the name, a free sector for the header and one for each started
-- block of a file that fits the header, `Create` succeeds.
pub create-Created :
    (fs : FileSystem) (f : Memory) (disk : ℕ → List ℕ) (d : Directory) (m : BitMap) (name : List ℕ)
    (size : ℕ)
    → Mounted fs disk d m
    → IsReady f
    → ((s : ℤ) → (Directory.add d name s).0 ≡ true)
    → div_round_up size sector_size ≤ 126
    → div_round_up size sector_size < free_count m
    → Created fs f disk d m name size
unfolding create create_absent create_file
create-Created fs f disk d m name size on ready place fits room =
    let (k, found, inside, free) = find_takes on.valid (omega arith) in
    let v1 = marked-IsValid k on.valid inside in
    let b : k < num_sectors = omega (arith, on.bits) in
    let bits : m.num_bits < 2 ^ 31 = omega (arith, on.bits) in
    let a =
      allocate-Made f.header (marked m k) size v1 bits ready.header ready.ints fits
        (omega (arith, free_count-marked k on.valid inside free)) in
    let (good, l) = add-entries d name (pos k) on.good (omega arith) (place (pos k)) in
    let fl =
      flush-Flushed fs f disk d (Directory.add d name (pos k)).1 m a.m' a.h k on ready a.storable b
        (unreserved fs disk d m k on free) free good (l ∙ on.entries) a.valid (a.bits ∙ on.bits)
        (λ j p. a.still_set j (ground (arith, is_set-marked k on.valid inside j, p))) in
    record {
      disk' = fl.disk3;
      k = k;
      h = a.h;
      m' = a.m';
      ks = a.ks;
      result =
          rw
            (
              load_directory-Mounted on ready,
              find_before_add d name (pos k) (place (pos k)),
              load_free_map-Mounted on ready,
              found,
              place (pos k),
              a.result,
              fl.header_written,
              fl.directory_written,
              fl.map_written,
            )
            refl;
      was_free = free;
      on_disk = b;
      allocated = a.allocated;
      mounted = fl.mounted;
      storable = a.storable;
      header = fl.header;
      others = fl.others;
    }
