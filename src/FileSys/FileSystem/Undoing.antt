-- ===== src/FileSys/FileSystem/Undoing.antt =====
-- `Remove` of nachos-3.4/code/filesys/filesys.cc undoes `Create`.
use n4ch0s.Base.{ℕ, List, true, not, has, ◌&&◌, Bool, ◌<◌, ◌≤◌, ◌≡◌, ◌∷◌, false, some, arith}
use n4ch0s.Base.Int.{ℤ, pos}
use n4ch0s.BitMap.{BitMap, is_set, div_round_up, IsValid, marked}
use n4ch0s.BitMap.Takes.{Takes, free_count, is_set-Takes}
use n4ch0s.BitMap.Words.{is_set-marked}
use n4ch0s.FileSys.Directory
use n4ch0s.FileSys.Directory.{Directory, minus_one}
use n4ch0s.FileSys.Directory.Add.{add-Unique}
use n4ch0s.FileSys.Directory.Entries.{entries-HasRoom}
use n4ch0s.FileSys.Directory.Lookup.{Unique}
use n4ch0s.FileSys.FileHeader.{sector_size}
use n4ch0s.FileSys.FileSystem.{FileSystem, Memory, create, remove}
use n4ch0s.FileSys.FileSystem.Mounted.{Mounted, IsReady}
use n4ch0s.FileSys.FileSystem.Creating.{create-Created}
use n4ch0s.FileSys.FileSystem.Opening.{find_created}
use n4ch0s.FileSys.FileSystem.Removing.{remove-Removed, Created-FileAt, was_clear}

-- The two calls, and the disk after them: every sector is free or not as it was before, and the name is not
-- found.
pub record Undone (fs : FileSystem) (f g : Memory) (disk : ℕ → List ℕ) (d : Directory) (m : BitMap)
    (name : List ℕ) (size : ℕ) : Type 0 where
  pub created : ℕ → List ℕ
  pub removed : ℕ → List ℕ
  pub d' : Directory
  pub m' : BitMap
  pub creates : create fs disk f name size ≡ some (true, created)
  pub removes : remove fs created g name ≡ some (true, removed)
  pub mounted : Mounted fs removed d' m'
  pub same_bits : (j : ℕ) → is_set m' j ≡ is_set m j
  pub not_found : Directory.find d' name ≡ some minus_one

restored :
    {m m' : BitMap} {k : ℕ} {ks : List ℕ} (b : Bool) (j : ℕ)
    → IsValid m
    → k < m.num_bits
    → is_set m k ≡ false
    → Takes m' (marked m k) ks
    → b ≡ (not (has j (k ∷ ks)) && is_set m' j)
    → b ≡ is_set m j
restored {m} {m'} {k} {ks} b j v l free t e =
    ground (arith, e, is_set-Takes j t, is_set-marked k v l j, was_clear v l free t j)

-- Where `Create` succeeds on a mounted disk whose names differ from one another, `Remove` of the name
-- returns TRUE after it: the disk is mounted, every sector is free or not as it was before the two calls,
-- and the name is not found.
pub remove-Undone :
    (fs : FileSystem) (f g : Memory) (disk : ℕ → List ℕ) (d : Directory) (m : BitMap)
    (name : List ℕ) (size : ℕ)
    → Mounted fs disk d m
    → IsReady f
    → IsReady g
    → Unique d.table
    → ((s : ℤ) → (Directory.add d name s).0 ≡ true)
    → div_round_up size sector_size ≤ 126
    → div_round_up size sector_size < free_count m
    → Undone fs f g disk d m name size
remove-Undone fs f g disk d m name size on ready ready' unique place fits room =
    let c = create-Created fs f disk d m name size on ready place fits room in
    let added = place (pos c.k) in
    let r =
      remove-Removed fs g c.disk' (Directory.add d name (pos c.k)).1 c.m' name c.k c.h c.ks
        c.mounted ready' (add-Unique d name (pos c.k) (entries-HasRoom d.table on.good) unique).1
        (find_created on c added) (Created-FileAt on c) in
    record {
      created = c.disk';
      removed = r.disk';
      d' = (Directory.remove (Directory.add d name (pos c.k)).1 name).1;
      m' = r.m';
      creates = c.result;
      removes = r.result;
      mounted = r.mounted;
      same_bits = λ j.
          restored (is_set r.m' j) j on.valid (omega (arith, c.on_disk, on.bits)) c.was_free
            c.allocated.takes (r.bits j);
      not_found = r.not_found;
    }
