-- ===== src/FileSys/Directory/Remove.antt =====
-- `Remove` of nachos-3.4/code/filesys/directory.cc as an update of a map from names to sectors.
use n4ch0s.Base.{
  ℕ, ◌≡◌, ◌∷◌, if◌then◌else◌, Bool, true, false, not, List, [], inl, inr, arith, refl, Bool-cases,
  ◌&&◌, some, ◌∙◌, zero, suc, ◌+◌, sym,
}
use n4ch0s.Base.Int.{pos}
use n4ch0s.FileSys.Names.{same_name, same_name_trans}
use n4ch0s.FileSys.Directory.Lookup.{
  lookup, found, Unique, found_same, find-lookup, lookup_missing, find_index_loop-Indexes, Miss,
  find_index-Indexes,
}
use n4ch0s.FileSys.Directory.{
  Entry, matches, file_name_max_len, Directory, find, release, minus_one, find_index_loop, remove,
  remove_at, find_index,
}
use n4ch0s.FileSys.Directory.Matching.{matches_name, matches_both, matches_free, matches_known}

abbrev Released : List ℕ → List ℕ → List Entry → List Entry → Type 0
Released name m es es' =
    (lookup m es' ≡ (if same_name file_name_max_len name m then minus_one else lookup m es))
    × (found m es' ≡ (not (same_name file_name_max_len name m) && found m es))

-- The entry that matches is in front.
release_first :
    (name m : List ℕ) (x : Entry) (es : List Entry)
    → Unique (x ∷ es)
    → matches name x ≡ true
    → Released name m (x ∷ es) (record x { in_use = false } ∷ es)
unfolding lookup found
release_first name m x es (apart, u) hit =
    let (used, same) = matches_name name x hit in
    elim (Bool-cases (same_name 9 name m)) [
      | inl e ↦
          let all_same = same_name_trans 9 x.name name m same ∙ e in
          ground (
            arith,
            matches_free m (record x { in_use = false }),
            apart used,
            found_same x.name m es all_same,
            lookup_missing m es,
            e,
          )
      | inr e ↦
          ground
            (arith, matches_free m (record x { in_use = false }), matches_known name m x hit, e)
    ]

release_later :
    (name m : List ℕ) (x : Entry) (es es' : List Entry)
    → matches name x ≡ false
    → Released name m es es'
    → Released name m (x ∷ es) (x ∷ es')
unfolding lookup found
release_later name m x es es' miss (l, f) = ground (arith, matches_both name m x)

release_lem :
    (name m : List ℕ) (es : List Entry) (i k : ℕ)
    → Unique es
    → find_index_loop name es i ≡ pos (k + i)
    → Released name m es (release es k)
unfolding release find_index_loop
release_lem name m [] i k u at = cc
release_lem name m (x ∷ es) i zero u at = elim (Bool-cases (matches name x)) [
  | inl hit ↦ release_first name m x es u hit
  | inr miss ↦ elim (find_index_loop-Indexes name es (i + 1)) [
    | inl (k, e, h) ↦ absurd (ground (arith, miss, e))
    | inr (e, h) ↦ absurd (ground (arith, miss, e))
  ]
]
release_lem name m (x ∷ es) i (suc k) u at = elim (Bool-cases (matches name x)) [
  | inl hit ↦ absurd (ground (arith, hit))
  | inr miss ↦
      release_later name m x es (release es k) miss
        (release_lem name m es (i + 1) k u.1 (ground (arith, miss)))
]

remove_table :
    (d : Directory) (name m : List ℕ)
    → Unique d.table
    → ((remove d name).0 ≡ found name d.table) × Released name m d.table (remove d name).1.table
unfolding remove remove_at find_index
remove_table d name m u = elim (find_index-Indexes d name) [
  | inl (k, e, h) ↦ rw e (
    sym h.is_found,
    rw (at_zero k) (release_lem name m d.table 0 k u (find_index_zero d name ∙ e)),
  )
  | inr (e, h) ↦ rw e (sym h.not_found, same_missing (same_name 9 name m) refl h)
]
  where
    at_zero : (k : ℕ) → k + 0 ≡ k
    at_zero k = omega arith

    find_index_zero :
        (d : Directory) (name : List ℕ) → find_index_loop name d.table 0 ≡ find_index d name
    find_index_zero d name = refl

    same_missing :
        (b : Bool) → same_name 9 name m ≡ b → Miss name d.table → Released name m d.table d.table
    same_missing b e h =
        ground
          (arith, h.not_found, h.no_sector, found_same name m d.table, lookup_missing m d.table)

-- Where the names in use differ from one another, `Remove` returns TRUE exactly for a name that is
-- found; after it no text that equals the name is found, and every other one is found as before.
pub find-remove :
    (d : Directory) (name m : List ℕ)
    → Unique d.table
    → ((remove d name).0 ≡ found name d.table)
      × (find (remove d name).1 m
          ≡ (if same_name file_name_max_len name m then some minus_one else find d m))
find-remove d name m u =
    let (done, gone) = remove_table d name m u in
    (
      done,
      rw (find-lookup (remove d name).1 m, find-lookup d m, gone.0) (by_test (same_name 9 name m)),
    )
  where
    by_test :
        (b : Bool)
        → some (if b then minus_one else lookup m d.table)
          ≡ (if b then some minus_one else some (lookup m d.table))
    by_test true = refl
    by_test false = refl
