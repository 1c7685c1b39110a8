-- ===== src/FileSys/FileSystem/Lifetime.antt =====
-- The life of a file in nachos-3.4/code/filesys: it is created, opened, written and read.
use n4ch0s.Base.{ℕ, length, true, List, ◌<◌, ◌≤◌, ◌≡◌, some, ◌∙◌, refl, false}
use n4ch0s.Base.Int.{ℤ, pos}
use n4ch0s.BitMap.{BitMap, div_round_up}
use n4ch0s.BitMap.Takes.{free_count}
use n4ch0s.FileSys.Directory
use n4ch0s.FileSys.Directory.{Directory}
use n4ch0s.FileSys.FileHeader.{sector_size}
use n4ch0s.FileSys.OpenFile.{OpenFile, write, read, seek}
use n4ch0s.FileSys.FileSystem.{FileSystem, Memory, create, open_file, mount}
use n4ch0s.FileSys.FileSystem.Mounted.{Mounted, IsReady}
use n4ch0s.FileSys.Directory.Add.{has_free, add_outcome}
use n4ch0s.FileSys.Directory.Lookup.{found}
use n4ch0s.FileSys.FileSystem.Creating.{create-Created}
use n4ch0s.FileSys.FileSystem.Opening.{open-Created, write-Created, opened}

-- The results of the calls: `Create`, the constructor after a reboot, `Open`, `Write`, and `Read` after a
-- `Seek` to the beginning.
pub record Lives (fs : FileSystem) (f g : Memory) (disk : ℕ → List ℕ) (name : List ℕ) (size : ℕ)
    (from : List ℕ) : Type 0 where
  pub created : ℕ → List ℕ
  pub written : ℕ → List ℕ
  pub file : OpenFile
  pub file' : OpenFile
  pub creates : create fs disk f name size ≡ some (true, created)
  pub boots : mount created ≡ some fs
  pub opens : open_file fs created g name ≡ some (some file)
  pub writes :
      write file created g.buffer from (pos (length from)) ≡ some (length from, file', written)
  pub reads : read (seek file' 0) written (pos (length from)) ≡ some (from, file')

-- On a mounted disk, for a name that no entry in use has, with an entry of the directory that is not in use, a
-- free sector for the header and one for each started block of a file that fits its header: `Create` returns TRUE; the file system is the same after a reboot;
-- `Open` of the name returns a file; bytes that are not more than its size are all written at its
-- beginning, and read back there as they were.
pub create-Lives :
    (fs : FileSystem) (f g : Memory) (disk : ℕ → List ℕ) (d : Directory) (m : BitMap)
    (name : List ℕ) (size : ℕ) (from : List ℕ)
    → Mounted fs disk d m
    → IsReady f
    → IsReady g
    → found name d.table ≡ false
    → has_free d.table ≡ true
    → div_round_up size sector_size ≤ 126
    → div_round_up size sector_size < free_count m
    → length from ≤ size
    → Lives fs f g disk name size from
create-Lives fs f g disk d m name size from on ready ready' absent vacant fits room short =
    let place : (s : ℤ) → (Directory.add d name s).0 ≡ true =
      λ s. (add_outcome d name s).0 ∙ rw (absent, vacant) refl in
    let c = create-Created fs f disk d m name size on ready place fits room in
    let (written, file', w, r) = write-Created on c g.buffer from ready'.buffers short in
    record {
      created = c.disk';
      written = written;
      file = opened on c;
      file' = file';
      creates = c.result;
      boots = c.mounted.boot;
      opens = open-Created on c ready' (place (pos c.k));
      writes = w;
      reads = r;
    }
