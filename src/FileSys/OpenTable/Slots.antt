-- ===== src/FileSys/OpenTable/Slots.antt =====
-- `FindFreeSlot` and `Open` with a type of nachos-3.4/code/filesys/filesys.cc.
use n4ch0s.Base.{
  ℕ, zero, suc, ◌+◌, ◌<◌, ◌≤◌, ◌≡◌, ◌==◌, ◌>>=◌, if◌then◌else◌, Option, none, some, List, refl,
  >>=-eq-some, inl, inr, ◌∙◌, ap, arith, Bool-cases, ==_self, ==_ne, ◌≢◌, sym, ==_iff,
}
use n4ch0s.Base.Int.{ℤ, pos, negsuc}
use n4ch0s.FileSys.Directory
use n4ch0s.FileSys.OpenFile.{OpenFile}
use n4ch0s.FileSys.FileSystem.{FileSystem, Memory, load_directory, open_sector, open_file}
use n4ch0s.FileSys.OpenTable.{TypedFile, free_slot_loop, open_at, open_typed, answer, put_slot}
use mathlib.Core.Option.{some-injective}

-- What `FindFreeSlot` answers: the first free place from the third to the fifteenth, or -1 when each of them
-- is taken.
pub data FreeSlot (openf : ℕ → Option TypedFile) (n i : ℕ) : ℤ → Type 0 where
  free :
      (k : ℕ)
      → i ≤ k
      → k < n + i
      → openf k ≡ none
      → ((j : ℕ) → i ≤ j → j < k → (file : TypedFile) × (openf j ≡ some file))
      → FreeSlot openf n i (pos k)
  full :
      ((j : ℕ) → i ≤ j → j < n + i → (file : TypedFile) × (openf j ≡ some file))
      → FreeSlot openf n i (negsuc 0)

taken_before :
    (openf : ℕ → Option TypedFile) (i n : ℕ) (file : TypedFile)
    → openf i ≡ some file
    → ((j : ℕ) → i + 1 ≤ j → j < n → (x : TypedFile) × (openf j ≡ some x))
    → (j : ℕ) → i ≤ j
    → j < n
    → (x : TypedFile) × (openf j ≡ some x)
taken_before openf i n file e rest j from below = elim (Bool-cases (i == j)) [
  | inl p ↦ (file, ap openf (sym ((==_iff i j).0 p)) ∙ e)
  | inr p ↦ rest j (ground (arith, from, p)) below
]

taken_first :
    (openf : ℕ → Option TypedFile) (n i : ℕ) (file : TypedFile) (slot : ℤ)
    → openf i ≡ some file
    → FreeSlot openf n (i + 1) slot
    → FreeSlot openf (suc n) i slot
taken_first openf n i file slot e (free k from below empty before) =
    free k (omega arith) (omega arith) empty (taken_before openf i k file e before)
taken_first openf n i file slot e (full before) =
    full (λ j p q. taken_before openf i (n + (i + 1)) file e before j p (omega arith))

first_place :
    (openf : ℕ → Option TypedFile) (n i : ℕ) (x : Option TypedFile) (rest : ℤ)
    → openf i ≡ x
    → FreeSlot openf n (i + 1) rest
    → FreeSlot openf (suc n) i (elim x [ none ↦ pos i | some file ↦ rest ])
first_place openf n i none rest e s =
    free i (omega arith) (omega arith) e (λ j p q. absurd (omega arith))
first_place openf n i (some file) rest e s = taken_first openf n i file rest e s

pub free_slot_loop-FreeSlot :
    (openf : ℕ → Option TypedFile) (n i : ℕ) → FreeSlot openf n i (free_slot_loop openf n i)
unfolding free_slot_loop
free_slot_loop-FreeSlot openf zero i = full (λ j p q. absurd (omega arith))
free_slot_loop-FreeSlot openf (suc n) i =
    first_place openf n i (openf i) _ refl (free_slot_loop-FreeSlot openf n (i + 1))

-- The place `k` is the first free one of the thirteen from the third on.
pub record IsFirstFree (openf : ℕ → Option TypedFile) (k : ℕ) : Type 0 where
  pub inside : (2 ≤ k) × (k < 15)
  pub empty : openf k ≡ none
  pub first : (j : ℕ) → 2 ≤ j → j < k → (file : TypedFile) × (openf j ≡ some file)

-- What `Open` with a type may do where `Open` answers with a file or with NULL: the file stands in the
-- first free place, or nothing is stored, or no place is free and it reaches before the array.
pub data Opens (openf : ℕ → Option TypedFile) (file_type : ℕ)
    : Option OpenFile → Option (Option TypedFile × (ℕ → Option TypedFile)) → Type 0 where
  stored :
      (k : ℕ) (file : OpenFile) (t : TypedFile) (table : ℕ → Option TypedFile)
      → IsFirstFree openf k
      → (t.file ≡ file) × (t.file_type ≡ file_type)
      → table k ≡ some t
      → ((j : ℕ) → j ≢ k → table j ≡ openf j)
      → Opens openf file_type (some file) (some (some t, table))
  missing : (k : ℕ) → IsFirstFree openf k → Opens openf file_type none (some (none, openf))
  overrun :
      (r : Option OpenFile)
      → ((j : ℕ) → 2 ≤ j → j < 15 → (file : TypedFile) × (openf j ≡ some file))
      → Opens openf file_type r none

put_opened :
    (openf : ℕ → Option TypedFile) (file_type : ℕ) (slot : ℤ) (file : OpenFile)
    → FreeSlot openf 13 2 slot
    → Opens openf file_type
        (some file)
        (put_slot openf slot (record { file = file; file_type = file_type }) >>= answer slot)
put_opened openf file_type slot file (free k p q e b) =
    let t : TypedFile = record { file = file; file_type = file_type } in
    let table : ℕ → Option TypedFile = λ j. if j == k then some t else openf j in
    let here : table k ≡ some t = rw (==_self k) refl in
    rw here (
      stored k file t table (record { inside = (p, q); empty = e; first = b }) (refl, refl) here
        (λ j n. rw (==_ne j k n) refl))
put_opened openf file_type slot file (full b) = overrun (some file) b

open_at-Opens :
    (disk : ℕ → List ℕ) (openf : ℕ → Option TypedFile) (file_type : ℕ) (slot sector : ℤ)
    (r : Option OpenFile)
    → FreeSlot openf 13 2 slot
    → elim sector [
      | negsuc n ↦ some none
      | pos k ↦ open_sector disk (pos k) >>= λ file. some (some file)
    ]
      ≡ some r
    → Opens openf file_type r (open_at disk openf file_type slot sector)
unfolding open_at
open_at-Opens disk openf file_type slot (negsuc n) none (free k p q e b) h =
    rw e (missing k (record { inside = (p, q); empty = e; first = b }))
open_at-Opens disk openf file_type slot (negsuc n) (some x) s h = cc
open_at-Opens disk openf file_type slot (negsuc n) none (full b) h = overrun none b
open_at-Opens disk openf file_type slot (pos k) r s h =
    let (file, e, g) = >>=-eq-some (open_sector disk (pos k)) _ h in
    rw (e, sym (some-injective _ _ g)) (put_opened openf file_type slot file s)

-- Where `Open` of a name returns a file, `Open` with a type returns the same file with the type and stores it in the
-- first free place from the third to the fifteenth of the table, and there alone; where it returns NULL, so does the
-- one with a type, and the table stays. When each of these places is taken, the one with a type reaches before the array.
pub open_typed-Opens :
    (fs : FileSystem) (disk : ℕ → List ℕ) (f : Memory) (openf : ℕ → Option TypedFile)
    (name : List ℕ) (file_type : ℕ) (r : Option OpenFile)
    → open_file fs disk f name ≡ some r
    → Opens openf file_type r (open_typed fs disk f openf name file_type)
unfolding open_typed open_file
open_typed-Opens fs disk f openf name file_type r h =
    let (d, e, g) = >>=-eq-some (load_directory fs disk f) _ h in
    let (sector, e', g') = >>=-eq-some (Directory.find d name) _ g in
    rw (e, e')
      (open_at-Opens disk openf file_type _ sector r (free_slot_loop-FreeSlot openf 13 2) g')
