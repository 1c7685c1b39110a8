-- ===== src/Semaphore/Table/Create.antt =====
-- What `Create` of nachos-3.4/code/userprog/stable.cc does to the names of the table.
use n4ch0s.Base.{
  ℕ, ◌+◌, ◌<◌, ◌≡◌, ◌∷◌, zero, suc, refl, true, false, Option, none, some, List, [], arith, length,
  set, get_elem?, ◌∙◌, ◌==◌, if◌then◌else◌, ap, Bool, inl, inr, Bool-cases, get_elem?-set_self,
  lt→ltb, sym,
}
use n4ch0s.Semaphore.Table.{
  same_text, STable, exist_loop, Sem, max_semaphore, negsuc, pos, ℤ, holds, create, is_exist,
  put_new, is_zero, new_sem,
}
use n4ch0s.BitMap.{IsValid, is_set, marked}
use mathlib.Core.Option.{some-injective}
use n4ch0s.BitMap.Search.{find-Finds}

same_text_refl : (a : List ℕ) → same_text a a ≡ true
unfolding same_text
same_text_refl [] = refl
same_text_refl (c ∷ a) = ground (arith, same_text_refl a)

-- The bits tell which places are taken, and there is a place for each bit.
pub record Matches (t : STable) : Type 0 where
  pub map_valid : IsValid t.bm
  pub bits : t.bm.num_bits ≡ max_semaphore
  pub places : length t.sem_tab ≡ max_semaphore
  pub empty :
      (k : ℕ) → is_set t.bm k ≡ false → k < max_semaphore → get_elem? t.sem_tab k ≡ some none

missed :
    (b : Bool) (i : ℕ) (r : ℤ) → (if b then pos i else r) ≡ negsuc 0 → (b ≡ false) × (r ≡ negsuc 0)
missed true i r h = cc
missed false i r h = (refl, h)

suc_not_zero : (n : ℕ) → (suc n == 0) ≡ false
suc_not_zero n = ground arith

-- A name that is absent from the table is found where it is put.
exist_loop-set :
    (ss : List (Option Sem)) (name : List ℕ) (x : Sem) (k i : ℕ)
    → same_text x.name name ≡ true
    → k < length ss
    → exist_loop ss name i ≡ negsuc 0
    → exist_loop (set ss k (some x)) name i ≡ pos (k + i)
unfolding exist_loop
exist_loop-set [] name x k i h l e = absurd (omega arith)
exist_loop-set (s ∷ ss) name x zero i h l e = rw h (ap pos (omega arith))
exist_loop-set (s ∷ ss) name x (suc k) i h l e =
    let (miss, rest) = missed (holds s name) i (exist_loop ss name (i + 1)) e in
    rw miss (exist_loop-set ss name x k (i + 1) h (omega (arith, l)) rest ∙ ap pos (omega arith))

-- Another name is found as before when an empty place is filled.
exist_loop_ne :
    (ss : List (Option Sem)) (name : List ℕ) (x : Sem) (k i : ℕ)
    → same_text x.name name ≡ false
    → get_elem? ss k ≡ some none
    → exist_loop (set ss k (some x)) name i ≡ exist_loop ss name i
unfolding exist_loop
exist_loop_ne [] name x k i h e = refl
exist_loop_ne (s ∷ ss) name x zero i h e = rw (h, some-injective s none e) refl
exist_loop_ne (s ∷ ss) name x (suc k) i h e = elim (Bool-cases (holds s name)) [
  | inl hit ↦ rw hit refl
  | inr miss ↦ rw miss (exist_loop_ne ss name x k (i + 1) h e)
]

-- The table after the place `j` is filled.
abbrev placed : STable → List ℕ → ℤ → ℕ → STable
placed t name value j = record t {
  bm = marked t.bm j;
  sem_tab = set t.sem_tab j (some (new_sem name value));
}

-- Unless the name is found at 0, the first free place is filled.
create_places :
    (t : STable) (name : List ℕ) (value : ℤ) (k : ℕ)
    → Matches t
    → length name < 50
    → is_zero (is_exist t name) ≡ false
    → is_set t.bm k ≡ false
    → k < max_semaphore
    → (j : ℕ) × (create t name value ≡ some (pos j, placed t name value j))
      × (is_set t.bm j ≡ false)
      × (j < max_semaphore)
unfolding create put_new
create_places t name value k m short e free inside = elim (find-Finds m.map_valid) [
  | inl (j, f) ↦ (
    j,
    rw
        (
          e,
          f.result,
          lt→ltb j max_semaphore (rw (sym m.bits) f.inside),
          lt→ltb (length name) 50 short,
        )
        refl,
    f.was_clear,
    rw (sym m.bits) f.inside,
  )
  | inr (all, r) ↦ absurd (ground (arith, free, all k (omega arith) (rw m.bits inside)))
]

-- In a table whose bits tell the places taken, with a free place: `Create` for a name of
-- less than 50 bytes that no semaphore of the table has puts it at an index where `IsExist` finds it
-- afterwards, and every other name is found as before.
pub create_new :
    (t : STable) (name : List ℕ) (value : ℤ) (k : ℕ)
    → Matches t
    → length name < 50
    → is_exist t name ≡ negsuc 0
    → is_set t.bm k ≡ false
    → k < max_semaphore
    → (j : ℕ) × (t' : STable) × (create t name value ≡ some (pos j, t'))
      × (is_exist t' name ≡ pos j)
      × ((other : List ℕ) → same_text name other ≡ false → is_exist t' other ≡ is_exist t other)
unfolding is_exist
create_new t name value k m short absent free inside =
    let (j, r, clear, lt) = create_places t name value k m short (ap is_zero absent) free inside in
    (
      j,
      placed t name value j,
      r,
      exist_loop-set t.sem_tab name (new_sem name value) j 0 (same_text_refl name) (rw m.places lt)
            absent
          ∙ ap pos (omega arith),
      λ other h. exist_loop_ne t.sem_tab other (new_sem name value) j 0 h (m.empty j clear lt),
    )

-- In a table whose bits tell the places taken, with a free place: for a name of less
-- than 50 bytes that `IsExist` finds at an index other than 0, `Create` does not return -1 but puts a
-- second semaphore of that name into the table, and returns its index.
pub create_duplicates :
    (t : STable) (name : List ℕ) (value : ℤ) (k n : ℕ)
    → Matches t
    → length name < 50
    → is_exist t name ≡ pos (suc n)
    → is_set t.bm k ≡ false
    → k < max_semaphore
    → (j : ℕ) × (t' : STable) × (create t name value ≡ some (pos j, t'))
      × (get_elem? t.sem_tab j ≡ some none)
      × (get_elem? t'.sem_tab j ≡ some (some (new_sem name value)))
create_duplicates t name value k n m short there free inside =
    let (j, r, clear, lt) =
      create_places t name value k m short (ap is_zero there ∙ suc_not_zero n) free inside in
    (
      j,
      placed t name value j,
      r,
      m.empty j clear lt,
      get_elem?-set_self t.sem_tab j (some (new_sem name value)) (rw m.places lt),
    )
