-- ===== src/FileSys/Directory.antt =====
-- The directory of nachos-3.4/code/filesys/directory.cc and directory.h: a table of names and header sectors.
pub mod Lookup
pub mod Matching
pub mod Add
pub mod Remove
pub mod Entries
mod Tests
use n4ch0s.Base.{
  ℕ, get_elem?, ◌+◌, ◌&&◌, ◌∷◌, ◌==◌, ◌>>=◌, if◌then◌else◌, zero, suc, Bool, true, false, not,
  Option, some, List, [],
}
use n4ch0s.Base.Int.{ℤ, pos, negsuc}
use n4ch0s.FileSys.Names.{same_name, copy_name}

abbrev pub file_name_max_len : ℕ
file_name_max_len = 9

pub record Entry : Type 0 where
  pub in_use : Bool
  pub sector : ℤ
  pub name : List ℕ

-- `tableSize` is the length of the table.
pub record Directory : Type 0 where
  pub table : List Entry

abbrev pub minus_one : ℤ
minus_one = negsuc 0

-- The constructor: `fresh` is what `new DirectoryEntry[size]` finds in the memory.
unfoldable pub init : List Entry → List Entry
init [] = []
init (e ∷ es) = record e { in_use = false } ∷ init es

-- The test of the loop in `FindIndex`.
pub matches : List ℕ → Entry → Bool
matches name e = e.in_use && same_name file_name_max_len e.name name

pub find_index_loop : List ℕ → List Entry → ℕ → ℤ
find_index_loop name [] i = minus_one
find_index_loop name (e ∷ es) i = if matches name e then pos i else find_index_loop name es (i + 1)

pub find_index : Directory → List ℕ → ℤ
unfolding find_index_loop
find_index d name = find_index_loop name d.table 0

-- `table[i].sector`, and -1 for an index of -1; `none` is an index outside the table.
sector_at : List Entry → ℤ → Option ℤ
sector_at table (pos i) = get_elem? table i >>= λ e. some e.sector
sector_at table (negsuc n) = some minus_one

pub find : Directory → List ℕ → Option ℤ
unfolding sector_at
find d name = sector_at d.table (find_index d name)

abbrev pub is_minus_one : ℤ → Bool
is_minus_one (pos n) = false
is_minus_one (negsuc n) = n == 0

pub filled : Entry → List ℕ → ℤ → Entry
filled e name sector = record {
  in_use = true;
  sector = sector;
  name = copy_name file_name_max_len e.name name;
}

-- The loop of `Add`: the first entry that is not in use takes the name.
pub add_loop : List ℕ → ℤ → List Entry → Bool × List Entry
add_loop name sector [] = (false, [])
add_loop name sector (e ∷ es) =
    let (done, rest) = add_loop name sector es in
    if not e.in_use then (true, filled e name sector ∷ es) else (done, e ∷ rest)

pub add : Directory → List ℕ → ℤ → Bool × Directory
unfolding add_loop
add d name sector =
    if not (is_minus_one (find_index d name))
    then (false, d)
    else (let (done, table) = add_loop name sector d.table in (done, record d { table = table }))

-- `table[i].inUse = FALSE`.
release : List Entry → ℕ → List Entry
release [] i = []
release (e ∷ es) zero = record e { in_use = false } ∷ es
release (e ∷ es) (suc i) = e ∷ release es i

remove_at : Directory → ℤ → Bool × Directory
remove_at d (pos i) = (true, record d { table = release d.table i })
remove_at d (negsuc n) = (false, d)

pub remove : Directory → List ℕ → Bool × Directory
unfolding remove_at release
remove d name = remove_at d (find_index d name)
