-- ===== src/FileSys/Directory/Tests.antt =====
-- Concrete directories of nachos-3.4/code/filesys/directory.cc.
use n4ch0s.FileSys.Names.{same_name}
use n4ch0s.Base.{
  ℕ, ◌≡◌, ◌&&◌, ◌∷◌, if◌then◌else◌, refl, true, false, not, some, List, [], arith, replicate,
}
use n4ch0s.FileSys.Directory.{
  find, Directory, add, remove, find_index, find_index_loop, matches, file_name_max_len, add_loop,
  minus_one,
}
use n4ch0s.FileSys.Directory.Lookup.{HasRoom, Unique, found}
use n4ch0s.FileSys.Directory.Add.{add-Unique, has_free, add_outcome, find-add}
use n4ch0s.FileSys.Directory.Remove.{find-remove}
use n4ch0s.Base.Int.{pos}

abbrev file_a : List ℕ
file_a = 97 ∷ []

abbrev file_b : List ℕ
file_b = 98 ∷ []

-- A directory with the file a and a free entry.
abbrev two_entries : Directory
two_entries = record {
  table =
      record { in_use = true; sector = pos 7; name = 97 ∷ replicate 9 0 }
      ∷ record { in_use = false; sector = pos 0; name = replicate 10 0 }
      ∷ [];
}

two_entries-HasRoom : HasRoom two_entries.table
two_entries-HasRoom = (omega arith, (omega arith, tt))

two_entries-Unique : Unique two_entries.table
unfolding found matches
two_entries-Unique = ((λ h. refl), ((λ h. refl), tt))

add_b : (add two_entries file_b (pos 8)).0 ≡ true
unfolding add find_index find_index_loop matches same_name add_loop
add_b = refl

find-add_example :
    find (add two_entries file_b (pos 8)).1 file_a
    ≡ (if same_name file_name_max_len file_b file_a then some (pos 8) else find two_entries file_a)
find-add_example = find-add two_entries file_b file_a (pos 8) two_entries-HasRoom add_b

find-remove_example :
    ((remove two_entries file_a).0 ≡ found file_a two_entries.table)
    × (find (remove two_entries file_a).1 file_b ≡ (
        if same_name file_name_max_len file_a file_b
        then some minus_one
        else find two_entries file_b))
find-remove_example = find-remove two_entries file_a file_b two_entries-Unique

add-Unique_example :
    HasRoom (add two_entries file_b (pos 8)).1.table
    × Unique (add two_entries file_b (pos 8)).1.table
add-Unique_example = add-Unique two_entries file_b (pos 8) two_entries-HasRoom two_entries-Unique

add_outcome_example :
    ((add two_entries file_b (pos 8)).0
      ≡ (not (found file_b two_entries.table) && has_free two_entries.table))
    × ((add two_entries file_b (pos 8)).0 ≡ false
        → (add two_entries file_b (pos 8)).1 ≡ two_entries)
add_outcome_example = add_outcome two_entries file_b (pos 8)
