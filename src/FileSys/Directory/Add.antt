-- ===== src/FileSys/Directory/Add.antt =====
-- `Add` of nachos-3.4/code/filesys/directory.cc as an update of a map from names to sectors.
use n4ch0s.Base.{
  ℕ, ◌≤◌, ◌≡◌, ◌||◌, ◌∷◌, if◌then◌else◌, Bool, true, false, not, List, [], inl, inr, arith, length,
  refl, Bool-cases, ◌&&◌, some, ◌∙◌,
}
use n4ch0s.Base.Int.{ℤ}
use n4ch0s.FileSys.Names.{
  same_name, same_name_sym, same_name-copy_name, length-copy_name, same_name_refl, copy_name,
}
use n4ch0s.FileSys.Directory.Lookup.{
  lookup, found, HasRoom, Unique, find_index-found, found_same, find-lookup,
}
use n4ch0s.FileSys.Directory.{Entry, file_name_max_len, add_loop, filled, add, Directory, find}
use n4ch0s.FileSys.Directory.Matching.{
  matches_both, unmatched_name, matches-filled, matches_free, sector-filled,
}

-- Whether an entry is free.
unfoldable pub has_free : List Entry → Bool
has_free [] = false
has_free (e ∷ es) = not e.in_use || has_free es

add_loop-lookup :
    (name m : List ℕ) (s : ℤ) (es : List Entry)
    → HasRoom es
    → found name es ≡ false
    → (add_loop name s es).0 ≡ true
    → (lookup m (add_loop name s es).1
        ≡ (if same_name file_name_max_len name m then s else lookup m es))
      × (found m (add_loop name s es).1 ≡ (same_name file_name_max_len name m || found m es))
unfolding add_loop lookup found
add_loop-lookup name m s [] room fresh done = cc
add_loop-lookup name m s (e ∷ es) (here, room) fresh done = elim (Bool-cases e.in_use) [
  | inl used ↦ ground (arith, used, add_loop-lookup name m s es room, matches_both name m e)
  | inr free ↦
      ground (arith, free, matches-filled name m e s here, matches_free m e, sector-filled name e s)
]

HasRoom-add_loop :
    (name : List ℕ) (s : ℤ) (es : List Entry) → HasRoom es → HasRoom (add_loop name s es).1
unfolding add_loop filled
HasRoom-add_loop name s [] room = tt
HasRoom-add_loop name s (e ∷ es) (here, room) =
    ground (arith, HasRoom-add_loop name s es room, length-copy_name 9 e.name name)

found-filled :
    (name : List ℕ) (e : Entry) (s : ℤ) (es : List Entry)
    → file_name_max_len ≤ length e.name
    → found name es ≡ false
    → found (filled e name s).name es ≡ false
unfolding filled
found-filled name e s es room fresh =
    (found_same (copy_name 9 e.name name) name es
      (same_name-copy_name 9 e.name name name room ∙ same_name_refl 9 name)).0
    ∙ fresh

add_loop-Unique :
    (name : List ℕ) (s : ℤ) (es : List Entry)
    → HasRoom es
    → found name es ≡ false
    → Unique es
    → (add_loop name s es).0 ≡ true
    → Unique (add_loop name s es).1
unfolding add_loop found
add_loop-Unique name s [] room fresh u done = tt
add_loop-Unique name s (e ∷ es) (here, room) fresh (apart, u) done = elim (Bool-cases e.in_use) [
  | inl used ↦ simp used (
    λ h. ground (
      arith,
      used,
      apart used,
      add_loop-lookup name e.name s es room,
      same_name_sym 9 e.name name,
      unmatched_name name e,
    ),
    add_loop-Unique name s es room (ground (arith, used)) u (ground (arith, used)),
  )
  | inr free ↦ simp free (λ h. found-filled name e s es here (ground (arith, free)), u)
]

-- A table with no free entry is what makes the loop of `Add` fail, and it changes nothing then.
add_loop-has_free :
    (name : List ℕ) (s : ℤ) (es : List Entry)
    → ((add_loop name s es).0 ≡ has_free es) × (has_free es ≡ false → (add_loop name s es).1 ≡ es)
unfolding add_loop has_free
add_loop-has_free name s [] = (refl, λ h. refl)
add_loop-has_free name s (e ∷ es) = ground (arith, add_loop-has_free name s es)

-- `Add` returns TRUE exactly when the name is not found and an entry is free; where it returns FALSE
-- the directory stays as it was.
pub add_outcome :
    (d : Directory) (name : List ℕ) (s : ℤ)
    → ((add d name s).0 ≡ (not (found name d.table) && has_free d.table))
      × ((add d name s).0 ≡ false → (add d name s).1 ≡ d)
unfolding add
add_outcome d name s = ground (arith, find_index-found d name, add_loop-has_free name s d.table)

pub add_new :
    (d : Directory) (name : List ℕ) (s : ℤ)
    → (add d name s).0 ≡ true
    → (found name d.table ≡ false)
      × ((add_loop name s d.table).0 ≡ true)
      × ((add d name s).1.table ≡ (add_loop name s d.table).1)
unfolding add
add_new d name s done = ground (arith, find_index-found d name)

-- In a directory whose name buffers have room for `FileNameMaxLen` bytes, after a successful `Add` each
-- text that equals the name in those bytes is found at its sector, and every other one as before.
pub find-add :
    (d : Directory) (name m : List ℕ) (s : ℤ)
    → HasRoom d.table
    → (add d name s).0 ≡ true
    → find (add d name s).1 m ≡ (if same_name file_name_max_len name m then some s else find d m)
find-add d name m s room done =
    let (fresh, ok, table) = add_new d name s done in
    rw
      (
        find-lookup (add d name s).1 m,
        find-lookup d m,
        table,
        (add_loop-lookup name m s d.table room fresh ok).0,
      )
      (by_test (same_name 9 name m))
  where
    by_test :
        (b : Bool)
        → some (if b then s else lookup m d.table) ≡ (if b then some s else some (lookup m d.table))
    by_test true = refl
    by_test false = refl

-- Where the names in use differ from one another and the buffers have room for `FileNameMaxLen` bytes,
-- both hold after `Add` as well, whether it succeeds or not.
pub add-Unique :
    (d : Directory) (name : List ℕ) (s : ℤ)
    → HasRoom d.table
    → Unique d.table
    → HasRoom (add d name s).1.table × Unique (add d name s).1.table
add-Unique d name s room u = elim (Bool-cases (add d name s).0) [
  | inl done ↦
      let (fresh, ok, table) = add_new d name s done in
      rw table
        (HasRoom-add_loop name s d.table room, add_loop-Unique name s d.table room fresh u ok)
  | inr refused ↦ rw ((add_outcome d name s).1 refused) (room, u)
]
