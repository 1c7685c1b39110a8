-- ===== src/FileSys/Directory/Lookup.antt =====
-- `FindIndex` and `Find` of nachos-3.4/code/filesys/directory.cc as a lookup in a table.
use n4ch0s.Base.{
  ℕ, get_elem?, ◌+◌, ◌≤◌, ◌≡◌, ◌⊎◌, ◌||◌, ◌∷◌, if◌then◌else◌, suc, refl, ap, Bool, true, false, not,
  some, List, [], inl, inr, arith, length, Bool-cases, sym,
}
use n4ch0s.Base.Int.{ℤ, pos}
use n4ch0s.FileSys.Names.{same_name, same_name_trans, same_name_sym}
use n4ch0s.FileSys.Directory.{
  Entry, find_index, Directory, matches, minus_one, file_name_max_len, find_index_loop, sector_at,
  is_minus_one, find,
}

-- The sector of the first entry in use with that name, or -1.
unfoldable pub lookup : List ℕ → List Entry → ℤ
lookup name [] = minus_one
lookup name (e ∷ es) = if matches name e then e.sector else lookup name es

unfoldable pub found : List ℕ → List Entry → Bool
found name [] = false
found name (e ∷ es) = matches name e || found name es

-- No two entries in use have one name.
abbrev pub Unique : List Entry → Type 0
Unique [] = Unit {0}
Unique (e ∷ es) = (e.in_use ≡ true → found e.name es ≡ false) × Unique es

-- Name buffers have room for the bytes that `strncpy` writes.
abbrev pub HasRoom : List Entry → Type 0
HasRoom [] = Unit {0}
HasRoom (e ∷ es) = (file_name_max_len ≤ length e.name) × HasRoom es

-- What `FindIndex` returns.
pub record Hit (name : List ℕ) (es : List Entry) (k : ℕ) : Type 0 where
  pub entry : Entry
  pub present : get_elem? es k ≡ some entry
  pub sector : lookup name es ≡ entry.sector
  pub is_found : found name es ≡ true

pub record Miss (name : List ℕ) (es : List Entry) : Type 0 where
  pub no_sector : lookup name es ≡ minus_one
  pub not_found : found name es ≡ false

abbrev pub Indexes : List ℕ → List Entry → ℕ → ℤ → Type 0
Indexes name es i r =
    ((k : ℕ) × (r ≡ pos (k + i)) × Hit name es k) ⊎ ((r ≡ minus_one) × Miss name es)

Indexes-cons :
    (name : List ℕ) (e : Entry) (es : List Entry) (i : ℕ) {r : ℤ}
    → matches name e ≡ false
    → Indexes name es (i + 1) r
    → Indexes name (e ∷ es) i r
unfolding lookup found
Indexes-cons name e es i miss (inl (k, eq, h)) = inl (
  suc k,
  ground arith,
  record {
    entry = h.entry;
    present = h.present;
    sector = rw miss h.sector;
    is_found = rw miss h.is_found;
  },
)
Indexes-cons name e es i miss (inr (eq, m)) =
    inr (eq, record { no_sector = rw miss m.no_sector; not_found = rw miss m.not_found })

pub find_index_loop-Indexes :
    (name : List ℕ) (es : List Entry) (i : ℕ) → Indexes name es i (find_index_loop name es i)
unfolding find_index_loop lookup found
find_index_loop-Indexes name [] i = inr (refl, record { no_sector = refl; not_found = refl })
find_index_loop-Indexes name (e ∷ es) i = elim (Bool-cases (matches name e)) [
  | inl hit ↦ inl (
    0,
    rw hit (ap pos (omega arith)),
    record { entry = e; present = refl; sector = rw hit; is_found = rw hit },
  )
  | inr miss ↦ rw miss (Indexes-cons name e es i miss (find_index_loop-Indexes name es (i + 1)))
]

pub find_index-Indexes :
    (d : Directory) (name : List ℕ) → Indexes name d.table 0 (find_index d name)
unfolding find_index
find_index-Indexes d name = find_index_loop-Indexes name d.table 0

-- `Find` never reads outside the table, and returns the sector of the first entry in use whose name
-- equals the text, or -1.
pub find-lookup : (d : Directory) (name : List ℕ) → find d name ≡ some (lookup name d.table)
unfolding find sector_at
find-lookup d name = elim (find_index-Indexes d name) [
  | inl (k, eq, h) ↦ rw (eq, at_zero k) (rw h.present (ap some (sym h.sector)))
  | inr (eq, m) ↦ rw eq (ap some (sym m.no_sector))
]
  where
    at_zero : (k : ℕ) → k + 0 ≡ k
    at_zero k = omega arith

-- `FindIndex` returns an index exactly for a name that is found.
pub find_index-found :
    (d : Directory) (name : List ℕ) → not (is_minus_one (find_index d name)) ≡ found name d.table
find_index-found d name = elim (find_index-Indexes d name) [
  | inl (k, eq, h) ↦ rw (eq, h.is_found)
  | inr (eq, m) ↦ rw (eq, m.not_found)
]

pub matches_same :
    (a b : List ℕ) (e : Entry) → same_name file_name_max_len a b ≡ true → matches a e ≡ matches b e
unfolding matches
matches_same a b e h =
    rw (same_name_sym 9 e.name a, same_name_sym 9 e.name b, same_name_trans 9 a b e.name h) refl

pub found_same :
    (a b : List ℕ) (es : List Entry)
    → same_name file_name_max_len a b ≡ true
    → (found a es ≡ found b es) × (lookup a es ≡ lookup b es)
unfolding found lookup
found_same a b [] h = (refl, refl)
found_same a b (e ∷ es) h = ground (arith, matches_same a b e h, found_same a b es h)

pub lookup_missing :
    (name : List ℕ) (es : List Entry) → found name es ≡ false → lookup name es ≡ minus_one
unfolding lookup found
lookup_missing name [] h = refl
lookup_missing name (e ∷ es) h = ground (arith, lookup_missing name es)
