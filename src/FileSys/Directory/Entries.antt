-- ===== src/FileSys/Directory/Entries.antt =====
-- The entries of a directory after `Add` of nachos-3.4/code/filesys/directory.cc fit their places on the disk.
use n4ch0s.Base.{
  ℕ, length, true, List, not, ◌≡◌, ◌∙◌, ◌∷◌, suc, refl, ap, some, [], inl, inr, arith, Bool-cases,
  false, zero,
}
use n4ch0s.Base.Int.{ℤ, pos, negsuc}
use n4ch0s.FileSys.Names.{length-copy_name}
use n4ch0s.FileSys.Directory.{
  Directory, Entry, add, add_loop, filled, find, minus_one, init, release, remove_at, remove,
  find_index,
}
use n4ch0s.FileSys.Directory.Add.{add_new, has_free}
use n4ch0s.FileSys.Directory.Lookup.{
  HasRoom, find-lookup, lookup_missing, found, find_index-found, Unique,
}
use n4ch0s.FileSys.Image.Laws.{All, IsEntry, IsInt}
use mathlib.Core.Path.{subst, sym}
use n4ch0s.FileSys.Directory.Matching.{matches_free}

pub entries-HasRoom : (es : List Entry) → All IsEntry es → HasRoom es
entries-HasRoom [] h = tt
entries-HasRoom (e ∷ es) h = (omega (arith, h.0.0), entries-HasRoom es h.1)

add_loop-entries :
    (name : List ℕ) (s : ℤ) (es : List Entry)
    → All IsEntry es
    → IsInt s
    → All IsEntry (add_loop name s es).1 × (length (add_loop name s es).1 ≡ length es)
unfolding add_loop filled
add_loop-entries name s [] h i = (tt, refl)
add_loop-entries name s (e ∷ es) h i =
    let (a, l) = add_loop-entries name s es h.1 i in
    elim (Bool-cases (not e.in_use)) [
      | inl t ↦ rw t (((length-copy_name 9 e.name name ∙ h.0.0, i), h.1), refl)
      | inr t ↦ rw t ((h.0, a), ap suc l)
    ]

pub add-entries :
    (d : Directory) (name : List ℕ) (s : ℤ)
    → All IsEntry d.table
    → IsInt s
    → (add d name s).0 ≡ true
    → All IsEntry (add d name s).1.table × (length (add d name s).1.table ≡ length d.table)
add-entries d name s h i t =
    let (new, done, e) = add_new d name s t in
    let (a, l) = add_loop-entries name s d.table h i in
    (subst (All IsEntry) (sym e) a, ap length e ∙ l)

-- A name that `Add` takes was not in the directory.
pub find_before_add :
    (d : Directory) (name : List ℕ) (s : ℤ) → (add d name s).0 ≡ true → find d name ≡ some minus_one
find_before_add d name s t =
    find-lookup d name ∙ ap some (lookup_missing name d.table (add_new d name s t).0)

pub found-init : (name : List ℕ) (es : List Entry) → found name (init es) ≡ false
unfolding found init
found-init name [] = refl
found-init name (e ∷ es) =
    ground (arith, matches_free name (record e { in_use = false }) refl, found-init name es)

pub has_free-init : (e : Entry) (es : List Entry) → has_free (init (e ∷ es)) ≡ true
unfolding init has_free
has_free-init e es = refl

-- A new directory with at least one place takes every name.
pub add_first :
    (e : Entry) (es : List Entry) (name : List ℕ) (s : ℤ)
    → (add (record { table = init (e ∷ es) }) name s).0 ≡ true
unfolding add add_loop init
add_first e es name s =
    let d : Directory = record { table = init (e ∷ es) } in
    rw (find_index-found d name, found-init name (e ∷ es)) refl

release-entries :
    (es : List Entry) (i : ℕ)
    → All IsEntry es
    → All IsEntry (release es i) × (length (release es i) ≡ length es)
unfolding release
release-entries [] i h = (tt, refl)
release-entries (e ∷ es) zero h = (h, refl)
release-entries (e ∷ es) (suc i) h = let (a, l) = release-entries es i h.1 in ((h.0, a), ap suc l)

remove_at-entries :
    (d : Directory) (i : ℤ)
    → All IsEntry d.table
    → All IsEntry (remove_at d i).1.table × (length (remove_at d i).1.table ≡ length d.table)
unfolding remove_at
remove_at-entries d (pos i) h = release-entries d.table i h
remove_at-entries d (negsuc n) h = (h, refl)

pub remove-entries :
    (d : Directory) (name : List ℕ)
    → All IsEntry d.table
    → All IsEntry (remove d name).1.table × (length (remove d name).1.table ≡ length d.table)
unfolding remove
remove-entries d name h = remove_at-entries d (find_index d name) h

-- No two entries of a new directory are in use.
pub init-Unique : (es : List Entry) → Unique (init es)
unfolding init
init-Unique [] = tt
init-Unique (e ∷ es) = (λ used. absurd (not_both used), init-Unique es)
  where
    not_both : false ≡ true → ⊥
    not_both p = cc
