-- ===== src/Semaphore/Tests.antt =====
-- Concrete semaphores of nachos-3.4/code/userprog/stable.cc.
use n4ch0s.Base.{
  ℕ, ◌<◌, ◌≡◌, ◌∷◌, zero, suc, refl, false, none, some, List, [], arith, get_elem?, replicate,
  Option,
}
use n4ch0s.Semaphore.Table.{
  STable, is_exist, new_sem, max_semaphore, exist_loop, create, Sem, same_text,
}
use n4ch0s.BitMap.{AllWords, is_set}
use n4ch0s.Semaphore.Table.Create.{Matches, create_new, create_duplicates}
use n4ch0s.Base.Int.{pos, negsuc}
use n4ch0s.Semaphore.{Semaphore}
use n4ch0s.SortedList.{element}

abbrev name_a : List ℕ
name_a = 97 ∷ []

abbrev name_b : List ℕ
name_b = 98 ∷ []

-- The semaphore a stands at the index 1, and all other places are free.
abbrev one_sem : STable
one_sem = record {
  bm = record { num_bits = 10; num_words = 1; map = 2 ∷ [] };
  sem_tab = none ∷ some (new_sem name_a (pos 1)) ∷ replicate 8 none;
}

abbrev no_sem : Option Sem
no_sem = none

all_none : (n k : ℕ) → k < n → get_elem? (replicate n none) k ≡ some no_sem
all_none zero k h = absurd (omega arith)
all_none (suc n) zero h = refl
all_none (suc n) (suc k) h = all_none n k (omega arith)

two : AllWords (2 ∷ [])
two zero = omega arith
two (suc i) = omega arith

free_places :
    (k : ℕ)
    → is_set one_sem.bm k ≡ false
    → k < max_semaphore
    → get_elem? one_sem.sem_tab k ≡ some none
unfolding is_set
free_places zero e h = refl
free_places (suc zero) e h = cc
free_places (suc (suc k)) e h = all_none 8 k (omega arith)

one_sem-Matches : Matches one_sem
one_sem-Matches = record {
  map_valid = record { words = refl; storage = refl; small = two };
  bits = refl;
  places = refl;
  empty = free_places;
}

absent_b : is_exist one_sem name_b ≡ negsuc 0
unfolding is_exist exist_loop same_text
absent_b = refl

present_a : is_exist one_sem name_a ≡ pos 1
unfolding is_exist exist_loop same_text
present_a = refl

zero_free : is_set one_sem.bm 0 ≡ false
unfolding is_set
zero_free = refl

create_new_example :
    (j : ℕ) × (t' : STable) × (create one_sem name_b (pos 4) ≡ some (pos j, t'))
    × (is_exist t' name_b ≡ pos j)
    × ((other : List ℕ)
        → same_text name_b other ≡ false
        → is_exist t' other ≡ is_exist one_sem other)
create_new_example =
    create_new one_sem name_b (pos 4) 0 one_sem-Matches (omega arith) absent_b zero_free
      (omega arith)

create_duplicates_example :
    (j : ℕ) × (t' : STable) × (create one_sem name_a (pos 4) ≡ some (pos j, t'))
    × (get_elem? one_sem.sem_tab j ≡ some none)
    × (get_elem? t'.sem_tab j ≡ some (some (new_sem name_a (pos 4))))
create_duplicates_example =
    create_duplicates one_sem name_a (pos 4) 0 0 one_sem-Matches (omega arith) present_a zero_free
      (omega arith)

-- Two threads sleep on a semaphore with the value 0.
abbrev contended : Semaphore
contended = record { value = pos 0; queue = element 5 0 ∷ element 6 0 ∷ [] }
