-- ===== src/FileSys/OpenTable.antt =====
-- The table of open files of nachos-3.4/code/filesys/filesys.cc: `FindFreeSlot` and `Open` with a type. The pointer
-- `openf` is a function from the index; the constructor does not set it, so what it holds is a parameter.
pub mod Slots
mod Tests
use n4ch0s.Base.{
  ℕ, zero, suc, ◌+◌, ◌<◌, ◌≤◌, ◌≡◌, ◌==◌, ◌>>=◌, if◌then◌else◌, Option, none, some, List,
}
use n4ch0s.Base.Int.{ℤ, pos, negsuc}
use n4ch0s.FileSys.Directory
use n4ch0s.FileSys.OpenFile.{OpenFile}
use n4ch0s.FileSys.FileSystem.{FileSystem, Memory, load_directory, open_sector}

-- The constructor with a type keeps it beside the header and the position.
pub record TypedFile : Type 0 where
  pub file : OpenFile
  pub file_type : ℕ

-- The loop of `FindFreeSlot` at `i`, with `n` rounds left.
unfoldable pub free_slot_loop : (ℕ → Option TypedFile) → (n i : ℕ) → ℤ
free_slot_loop openf zero i = negsuc 0
free_slot_loop openf (suc n) i =
    let rest = free_slot_loop openf n (i + 1) in elim (openf i) [ none ↦ pos i | some file ↦ rest ]

abbrev pub find_free_slot : (ℕ → Option TypedFile) → ℤ
find_free_slot openf = free_slot_loop openf 13 2

-- `openf[freeSlot]`: `none` is a place before the array.
abbrev pub slot_at : (ℕ → Option TypedFile) → ℤ → Option (Option TypedFile)
slot_at openf (pos i) = some (openf i)
slot_at openf (negsuc n) = none

abbrev pub put_slot : (ℕ → Option TypedFile) → ℤ → TypedFile → Option (ℕ → Option TypedFile)
put_slot openf (pos i) file = some (λ j. if j == i then some file else openf j)
put_slot openf (negsuc n) file = none

-- The return of `openf[freeSlot]`, with the table.
abbrev pub answer : ℤ → (ℕ → Option TypedFile) → Option (Option TypedFile × (ℕ → Option TypedFile))
answer slot openf = slot_at openf slot >>= λ x. some (x, openf)

-- `Open` with a type from the sector that `Find` answers.
unfoldable pub open_at :
    (ℕ → List ℕ)
    → (ℕ → Option TypedFile)
    → (file_type : ℕ) → (slot sector : ℤ) → Option (Option TypedFile × (ℕ → Option TypedFile))
open_at disk openf file_type slot (negsuc n) = answer slot openf
open_at disk openf file_type slot (pos k) = open_sector disk (pos k) >>= λ file.
    put_slot openf slot (record { file = file; file_type = file_type }) >>= answer slot

unfoldable pub open_typed :
    FileSystem
    → (ℕ → List ℕ)
    → Memory
    → (ℕ → Option TypedFile)
    → List ℕ
    → (file_type : ℕ) → Option (Option TypedFile × (ℕ → Option TypedFile))
open_typed fs disk f openf name file_type =
    let slot = find_free_slot openf in
    load_directory fs disk f >>= λ d.
    Directory.find d name >>= λ sector. open_at disk openf file_type slot sector
