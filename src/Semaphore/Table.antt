-- ===== src/Semaphore/Table.antt =====
-- The table of named semaphores of nachos-3.4/code/userprog/stable.cc with `Sem` of sem.h.
pub mod Create
use n4ch0s.Base.{
  ℕ, ◌+◌, ◌&&◌, ◌∷◌, ◌==◌, ◌>>=◌, if◌then◌else◌, Bool, true, false, Option, none, some, List, [],
  set, get_elem?, ltb, length,
}
use n4ch0s.Semaphore.{Semaphore, Turn, p, v, sleeps, goes_on, is_zero}
use n4ch0s.BitMap
use n4ch0s.BitMap.{BitMap}
use n4ch0s.Base.Int.{ℤ, negsuc, pos}
use n4ch0s.SortedList.{Element}

-- A name is the list of its bytes before the terminating 0.
pub record Sem : Type 0 where
  pub name : List ℕ
  pub sem : Semaphore

-- `semTab` has a place for each bit of the map; `none` is a null pointer.
pub record STable : Type 0 where
  pub bm : BitMap
  pub sem_tab : List (Option Sem)

abbrev pub max_semaphore : ℕ
max_semaphore = 10

-- `strcmp(a, b) == 0`.
unfoldable pub same_text : List ℕ → List ℕ → Bool
same_text [] [] = true
same_text [] (d ∷ b) = false
same_text (c ∷ a) [] = false
same_text (c ∷ a) (d ∷ b) = let rest = same_text a b in (c == d) && rest

-- The constructor; `fresh` and `words` are what the memory holds, since `semTab` is not set to NULL.
unfoldable pub init : List (Option Sem) → List ℕ → Option STable
init fresh words =
    BitMap.init max_semaphore words >>= λ b. some (record { bm = b; sem_tab = fresh })

abbrev pub holds : Option Sem → List ℕ → Bool
holds none name = false
holds (some s) name = same_text s.name name

unfoldable pub exist_loop : List (Option Sem) → List ℕ → ℕ → ℤ
exist_loop [] name i = negsuc 0
exist_loop (s ∷ ss) name i =
    let rest = exist_loop ss name (i + 1) in if holds s name then pos i else rest

-- `IsExist`: the index of the first semaphore of that name, or -1.
unfoldable pub is_exist : STable → List ℕ → ℤ
is_exist t name = exist_loop t.sem_tab name 0

abbrev pub new_sem : List ℕ → ℤ → Sem
new_sem name value = record { name = name; sem = record { value = value; queue = [] } }

-- `semTab[index] = new Sem(name, init)` and `return index`; -1 where there is no free place. `none`
-- is a write outside the table, or of a name that its 50 bytes do not hold with the 0.
unfoldable pub put_new : STable → List ℕ → ℤ → ℤ → Option (ℤ × STable)
put_new t name value (negsuc n) = some (negsuc 0, t)
put_new t name value (pos k) =
    if ltb k max_semaphore && ltb (length name) 50
    then some (pos k, record t { sem_tab = set t.sem_tab k (some (new_sem name value)) })
    else none

-- `Create`: `!IsExist(name)` holds for the index 0, and for no other result.
unfoldable pub create : STable → List ℕ → ℤ → Option (ℤ × STable)
create t name value =
    let placed =
      BitMap.find t.bm >>= λ (index, b). put_new (record t { bm = b }) name value index in
    if is_zero (is_exist t name) then some (negsuc 0, t) else placed

-- `semTab[index]`, for an index that `IsExist` returned.
abbrev pub sem_at : STable → ℕ → Option Sem
sem_at t k = get_elem? t.sem_tab k >>= λ s. s

abbrev pub put_sem : STable → ℕ → Sem → Semaphore → STable
put_sem t k s x = record t { sem_tab = set t.sem_tab k (some (record s { sem = x })) }

-- `Wait` up to the end of one round of `P`: `none` in the second place is the result -1.
unfoldable pub wait : STable → List ℕ → ℕ → Option (Option (Turn × STable))
wait t name thread = elim (is_exist t name) [
  | negsuc n ↦ some none
  | pos k ↦ sem_at t k >>= λ s. elim (p s.sem thread) [
    | sleeps x ↦ some (some (sleeps x, put_sem t k s x))
    | goes_on x ↦ some (some (goes_on x, put_sem t k s x))
  ]
]

-- `Signal`: the result, the table and the ready list.
unfoldable pub signal : STable → List ℕ → List (Element ℕ) → Option (ℤ × STable × List (Element ℕ))
signal t name ready = elim (is_exist t name) [
  | negsuc n ↦ some (negsuc 0, t, ready)
  | pos k ↦
      sem_at t k >>= λ s. let (x, ready') = v s.sem ready in some (pos 0, put_sem t k s x, ready')
]

unfoldable pub get_value : STable → List ℕ → Option ℤ
get_value t name = elim (is_exist t name) [
  | negsuc n ↦ some (pos 32767)
  | pos k ↦ sem_at t k >>= λ s. some s.sem.value
]
