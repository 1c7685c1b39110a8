-- ===== src/FileSys/FileSystem/Tests.antt =====
-- A disk of nachos-3.4/code/filesys/filesys.cc that is formatted, and a file on it.
use n4ch0s.Base.{
  ℕ, List, replicate, length-replicate, zero, suc, ◌+◌, ◌∷◌, refl, true, [], arith, ◌≡◌, false,
  some, none, Option,
}
use n4ch0s.Base.Int.{pos}
use n4ch0s.BitMap.{AllWords}
use n4ch0s.FileSys.Directory
use n4ch0s.FileSys.Directory.{Entry, Directory}
use n4ch0s.FileSys.Directory.Entries.{add_first, found-init, has_free-init}
use n4ch0s.FileSys.FileHeader.{FileHeader, sector_size}
use n4ch0s.FileSys.Image.Laws.{All, IsInt, IsEntry}
use n4ch0s.FileSys.FileSystem.{Memory, create}
use n4ch0s.FileSys.FileSystem.Mounted.{IsReady, create_again}
use n4ch0s.FileSys.FileSystem.Formatting.{Formatted, format-Formatted}
use n4ch0s.FileSys.FileSystem.Lifetime.{Lives, create-Lives}
use n4ch0s.FileSys.FileSystem.Creating.{Created, create-Created}
use n4ch0s.FileSys.FileSystem.Undoing.{Undone, remove-Undone}
use n4ch0s.FileSys.Directory.Entries.{init-Unique}
use n4ch0s.FileSys.FileSystem.Unchanged.{create_fails}
use n4ch0s.FileSys.FileSystem.Opening.{find_created, opened, open-Created}
use n4ch0s.FileSys.OpenTable.{TypedFile, open_typed}
use n4ch0s.FileSys.OpenTable.Slots.{Opens, open_typed-Opens}

abbrev blank : FileHeader
blank = record { num_bytes = 0; num_sectors = 0; data_sectors = replicate 126 (pos 0) }

abbrev unused : Entry
unused = record { in_use = true; sector = pos 3; name = replicate 10 0 }

abbrev memory : Memory
memory = record {
  buffer = λ n. replicate n 7;
  table = unused ∷ replicate 9 unused;
  words = replicate 32 5;
  header = blank;
}

All-replicate {ℓ κ} : {A : Type ℓ} (p : A → Type κ) (n : ℕ) (a : A) → p a → All p (replicate n a)
All-replicate p zero a h = tt
All-replicate p (suc n) a h = (h, All-replicate p n a h)

five_everywhere : (n : ℕ) → AllWords (replicate n 5)
five_everywhere zero i = omega arith
five_everywhere (suc n) zero = omega arith
five_everywhere (suc n) (suc i) = five_everywhere n i

zeros : All IsInt (replicate 126 (pos 0))
zeros = All-replicate IsInt 126 (pos 0) (omega arith)

memory-IsReady : IsReady memory
memory-IsReady = record {
  buffers = λ k. length-replicate {A = ℕ} k 7;
  table = refl;
  words = length-replicate {A = ℕ} 32 5;
  small = five_everywhere 32;
  header = length-replicate 126 (pos 0);
  ints = zeros;
  named = ((refl, omega arith), All-replicate IsEntry 9 unused (refl, omega arith));
}

abbrev noise : ℕ → List ℕ
noise k = replicate sector_size (k + 1)

format-Formatted_example : Formatted memory noise blank blank
format-Formatted_example =
    format-Formatted memory noise blank blank memory-IsReady
      (λ k. length-replicate sector_size (k + 1)) (length-replicate 126 (pos 0), zeros)
      (length-replicate 126 (pos 0), zeros)

formatted : Formatted memory noise blank blank
formatted =
    format-Formatted memory noise blank blank memory-IsReady
      (λ k. length-replicate sector_size (k + 1)) (length-replicate 126 (pos 0), zeros)
      (length-replicate 126 (pos 0), zeros)

create-Lives_example :
    Lives formatted.fs memory memory formatted.disk' (97 ∷ 98 ∷ []) 1000 (1 ∷ 2 ∷ 3 ∷ [])
create-Lives_example =
    create-Lives formatted.fs memory memory formatted.disk'
      (record { table = Directory.init memory.table }) formatted.m (97 ∷ 98 ∷ []) 1000
      (1 ∷ 2 ∷ 3 ∷ []) formatted.mounted memory-IsReady memory-IsReady
      (found-init (97 ∷ 98 ∷ []) (unused ∷ replicate 9 unused))
      (has_free-init unused (replicate 9 unused)) (omega arith) (omega (arith, formatted.room))
      (omega arith)

once :
    Created formatted.fs memory formatted.disk'
      (record { table = Directory.init memory.table })
      formatted.m
      (97 ∷ [])
      600
once =
    create-Created formatted.fs memory formatted.disk'
      (record { table = Directory.init memory.table }) formatted.m (97 ∷ []) 600 formatted.mounted
      memory-IsReady (λ s. add_first unused (replicate 9 unused) (97 ∷ []) s) (omega arith)
      (omega (arith, formatted.room))

-- A file of the name is there already.
second_create : create formatted.fs once.disk' memory (97 ∷ []) 600 ≡ some (false, once.disk')
second_create = create_again once.mounted memory-IsReady (97 ∷ []) 600 once.k (
    find_created formatted.mounted once
      (add_first unused (replicate 9 unused) (97 ∷ []) (pos once.k)))

create_fails_example : once.disk' ≡ once.disk'
create_fails_example =
    create_fails once.disk' formatted.fs memory (97 ∷ []) 600 once.disk' second_create

remove-Undone_example :
    Undone formatted.fs memory memory formatted.disk'
      (record { table = Directory.init memory.table })
      formatted.m
      (97 ∷ 98 ∷ [])
      1000
remove-Undone_example =
    remove-Undone formatted.fs memory memory formatted.disk'
      (record { table = Directory.init memory.table }) formatted.m (97 ∷ 98 ∷ []) 1000
      formatted.mounted memory-IsReady memory-IsReady (init-Unique memory.table)
      (λ s. add_first unused (replicate 9 unused) (97 ∷ 98 ∷ []) s) (omega arith)
      (omega (arith, formatted.room))

abbrev no_files : ℕ → Option TypedFile
no_files i = none

open_typed-Opens_example :
    Opens no_files 1
      (some (opened formatted.mounted once))
      (open_typed formatted.fs once.disk' memory no_files (97 ∷ []) 1)
open_typed-Opens_example =
    open_typed-Opens formatted.fs once.disk' memory no_files (97 ∷ []) 1
      (some (opened formatted.mounted once))
      (open-Created formatted.mounted once memory-IsReady
        (add_first unused (replicate 9 unused) (97 ∷ []) (pos once.k)))
