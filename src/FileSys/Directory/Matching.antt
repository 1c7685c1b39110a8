-- ===== src/FileSys/Directory/Matching.antt =====
-- When an entry of the directory of nachos-3.4/code/filesys/directory.cc carries a name.
use n4ch0s.Base.{ℕ, ◌≤◌, ◌≡◌, true, false, List, arith, length, refl}
use n4ch0s.Base.Int.{ℤ}
use n4ch0s.FileSys.Names.{same_name, same_name_trans, same_name_sym, same_name-copy_name}
use n4ch0s.FileSys.Directory.{Entry, matches, file_name_max_len, filled}

pub matches-filled :
    (name m : List ℕ) (e : Entry) (s : ℤ)
    → file_name_max_len ≤ length e.name
    → matches m (filled e name s) ≡ same_name file_name_max_len name m
unfolding matches filled
matches-filled name m e s room = same_name-copy_name 9 e.name name m room

-- Two names that an entry matches are the same.
pub matches_both :
    (name m : List ℕ) (e : Entry)
    → matches m e ≡ true
    → matches name e ≡ false
    → same_name file_name_max_len name m ≡ false
unfolding matches
matches_both name m e h k = ground (arith, same_name_trans 9 e.name m name, same_name_sym 9 m name)

pub matches_free : (m : List ℕ) (e : Entry) → e.in_use ≡ false → matches m e ≡ false
unfolding matches
matches_free m e h = rw h

pub sector-filled : (name : List ℕ) (e : Entry) (s : ℤ) → (filled e name s).sector ≡ s
unfolding filled
sector-filled name e s = refl

pub unmatched_name :
    (name : List ℕ) (e : Entry)
    → matches name e ≡ false
    → e.in_use ≡ true
    → same_name 9 e.name name ≡ false
unfolding matches
unmatched_name name e h used = ground arith

pub matches_name :
    (name : List ℕ) (e : Entry)
    → matches name e ≡ true
    → (e.in_use ≡ true) × (same_name 9 e.name name ≡ true)
unfolding matches
matches_name name e h = ground arith

pub matches_known :
    (name m : List ℕ) (e : Entry)
    → matches name e ≡ true
    → matches m e ≡ same_name file_name_max_len name m
unfolding matches
matches_known name m e h = ground (arith, same_name_trans 9 e.name name m)
