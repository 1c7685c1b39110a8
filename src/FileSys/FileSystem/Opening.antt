-- ===== src/FileSys/FileSystem/Opening.antt =====
-- A file of nachos-3.4/code/filesys/filesys.cc that has been created is opened, written and read.
use n4ch0s.Base.{ℕ, length, true, List, ◌∙◌, if◌then◌else◌, ◌+◌, ◌≤◌, ◌≡◌, refl, ap, some, arith}
use n4ch0s.Base.Int.{pos}
use n4ch0s.BitMap.{BitMap}
use n4ch0s.FileSys.Directory
use n4ch0s.FileSys.Directory.{Directory, file_name_max_len}
use n4ch0s.FileSys.Directory.Add.{find-add}
use n4ch0s.FileSys.Directory.Entries.{entries-HasRoom}
use n4ch0s.FileSys.Names.{same_name_refl}
use n4ch0s.FileSys.FileHeader.{file_length}
use n4ch0s.FileSys.FileHeader.Sectors.{sector_at_byte, sectors_apart}
use n4ch0s.FileSys.OpenFile.{OpenFile, write, read, seek}
use n4ch0s.FileSys.OpenFile.Reading.{Readable}
use n4ch0s.FileSys.OpenFile.Stored.{Apart}
use n4ch0s.FileSys.FileSystem.{FileSystem, Memory, open_file, open_sector}
use n4ch0s.FileSys.FileSystem.Mounted.{Mounted, IsReady, load_directory-Mounted}
use n4ch0s.FileSys.FileSystem.Holding.{write_at-Holds, read_at-Holds}
use n4ch0s.FileSys.FileSystem.Creating.{Created}
use n4ch0s.FileSys.FileSystem.Fetching.{fetch_header-written}

module _ {fs : FileSystem} {f : Memory} {disk : ℕ → List ℕ} {d : Directory} {m : BitMap}
    {name : List ℕ} {size : ℕ} (on : Mounted fs disk d m)
    (c : Created fs f disk d m name size) where
  -- The file as `Open` returns it.
  abbrev pub opened : OpenFile
  opened = record { hdr = c.h; seek_position = 0 }

  -- The directory that `Create` leaves finds the name at the sector of the header.
  pub find_created :
      (Directory.add d name (pos c.k)).0 ≡ true
      → Directory.find (Directory.add d name (pos c.k)).1 name ≡ some (pos c.k)
  find_created added =
      find-add d name name (pos c.k) (entries-HasRoom d.table on.good) added
      ∙ ap (λ b. if b then some (pos c.k) else Directory.find d name)
          (same_name_refl file_name_max_len name)

  pub open-Created :
      {g : Memory}
      → IsReady g
      → (Directory.add d name (pos c.k)).0 ≡ true
      → open_file fs c.disk' g name ≡ some (some opened)
  unfolding open_file open_sector
  open-Created {g} ready added =
      rw
        (
          load_directory-Mounted c.mounted ready,
          find_created added,
          fetch_header-written c.disk' c.h c.k c.storable c.on_disk c.header,
        )
        refl

  pub Created-Readable : Readable c.h c.disk'
  Created-Readable = record {
    data_of = λ i p.
        (let (k, e, b, r) = sector_at_byte c.allocated i p in (k, e, omega (arith, b, on.bits)));
    full = c.mounted.directory.readable.full;
  }

  pub Created-Apart : Apart c.h
  Created-Apart = sectors_apart c.allocated

  -- A write from the beginning of the opened file, and a read after `Seek` to the beginning.
  pub write-Created :
      (buffer : ℕ → List ℕ) (from : List ℕ)
      → ((k : ℕ) → length (buffer k) ≡ k)
      → length from ≤ size
      → (disk' : ℕ → List ℕ) × (file : OpenFile) × (write opened c.disk' buffer from
            (pos (length from))
          ≡ some (length from, file, disk'))
        × (read (seek file 0) disk' (pos (length from)) ≡ some (from, file))
  unfolding write read seek file_length
  write-Created buffer from sized fits =
      let (disk', e, h, kept) =
        write_at-Holds c.h c.disk' buffer from (length from) Created-Readable Created-Apart sized
          refl (omega (arith, c.allocated.bytes)) in
      (
        disk',
        record { hdr = c.h; seek_position = 0 + length from },
        rw e refl,
        rw (read_at-Holds c.h disk' from (length from) h refl) refl,
      )
