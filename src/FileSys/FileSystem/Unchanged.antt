-- ===== src/FileSys/FileSystem/Unchanged.antt =====
-- The failures of `Create` and `Remove` of nachos-3.4/code/filesys/filesys.cc.
use n4ch0s.Base.{
  ℕ, ◌≡◌, Bool, true, false, ◌>>=◌, if◌then◌else◌, sym, ap, Option, none, some, List, not,
}
use n4ch0s.Base.Int.{ℤ}
use n4ch0s.BitMap.{BitMap}
use n4ch0s.FileSys.Directory.{Directory}
use n4ch0s.FileSys.FileSystem.{FileSystem, Memory, create_file, create_absent, create}
use n4ch0s.BitMap
use n4ch0s.FileSys.Directory
use n4ch0s.FileSys.Directory.{is_minus_one}
use n4ch0s.FileSys.FileHeader.{allocate}
use n4ch0s.FileSys.FileSystem.{
  write_header, write_directory, write_bit_map, load_free_map, load_directory,
}

-- The results that leave the disk as it was when they are a failure.
Fails : (disk : ℕ → List ℕ) → Option (Bool × (ℕ → List ℕ)) → Type 0
Fails disk r = (disk' : ℕ → List ℕ) → r ≡ some (false, disk') → disk' ≡ disk

disk_of : (ℕ → List ℕ) → Option (Bool × (ℕ → List ℕ)) → ℕ → List ℕ
disk_of disk none = disk
disk_of disk (some (b, d)) = d

module _ (disk : ℕ → List ℕ) where
  false-Fails : Fails disk (some (false, disk))
  unfolding Fails disk_of
  false-Fails disk' e = sym (ap (disk_of disk) e)

  true-Fails : (d : ℕ → List ℕ) → Fails disk (some (true, d))
  unfolding Fails
  true-Fails d disk' e = cc

  >>=-Fails {ℓ} :
      {A : Type ℓ} (m : Option A) (g : A → Option (Bool × (ℕ → List ℕ)))
      → ((a : A) → Fails disk (g a))
      → Fails disk (m >>= g)
  unfolding Fails
  >>=-Fails none g h disk' e = cc
  >>=-Fails (some a) g h disk' e = h a disk' e

  if-Fails :
      (b : Bool) (x y : Option (Bool × (ℕ → List ℕ)))
      → Fails disk x
      → Fails disk y
      → Fails disk (if b then x else y)
  if-Fails true x y h g = h
  if-Fails false x y h g = g

  module _ (fs : FileSystem) (f : Memory) where
    create_file-Fails :
        (m : BitMap) (d : Directory) (sector : ℤ) (size : ℕ)
        → Fails disk (create_file fs disk f m d sector size)
    unfolding create_file
    create_file-Fails m d sector size = >>=-Fails (allocate f.header m size) _ λ (success, h, m').
        if-Fails (not success) _ _ false-Fails (
          >>=-Fails (write_header disk h sector) _ λ disk1.
            >>=-Fails (write_directory fs.directory_file disk1 f.buffer d) _
              λ disk2. >>=-Fails (write_bit_map fs.free_map_file disk2 f.buffer m') _ true-Fails)

    create_absent-Fails :
        (d : Directory) (name : List ℕ) (size : ℕ)
        → Fails disk (create_absent fs disk f d name size)
    unfolding create_absent
    create_absent-Fails d name size = >>=-Fails (load_free_map fs disk f) _ λ m.
        >>=-Fails (BitMap.find m) _ λ (sector, m').
          let (added, d') = Directory.add d name sector in
          if-Fails (is_minus_one sector) _ _ false-Fails
            (if-Fails (not added) _ _ false-Fails (create_file-Fails m' d' sector size))

    -- When `Create` returns FALSE, whatever the reason, the disk is as it was.
    pub create_fails :
        (name : List ℕ) (size : ℕ) (disk' : ℕ → List ℕ)
        → create fs disk f name size ≡ some (false, disk')
        → disk' ≡ disk
    unfolding create Fails
    create_fails name size = >>=-Fails (load_directory fs disk f) _ λ d.
        >>=-Fails (Directory.find d name) _ λ sector.
          if-Fails (not (is_minus_one sector)) _ _ false-Fails (create_absent-Fails d name size)
