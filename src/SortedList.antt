-- ===== src/SortedList.antt =====
-- `List` of nachos-3.4/code/threads/list.cc, as the elements from `first` to `last`: an element is a
-- key and an item, and the list holds the only pointers to it.
pub mod Order
use n4ch0s.Base.{ℕ, List, [], ◌∷◌, if◌then◌else◌, Bool, true, false, Option, none, some, ltb}

pub record Element (A : Type 0) : Type 0 where
  pub key : ℕ
  pub item : A

-- The constructor.
abbrev pub element : {A : Type 0} → A → ℕ → Element A
element x sort_key = record { key = sort_key; item = x }

-- `Append` and `Prepend`, with the key 0 of a list that is not sorted.
unfoldable pub append : {A : Type 0} → List (Element A) → A → List (Element A)
append [] x = element x 0 ∷ []
append (e ∷ es) x = e ∷ append es x

unfoldable pub prepend : {A : Type 0} → List (Element A) → A → List (Element A)
prepend es x = element x 0 ∷ es

-- The loop from an element that goes before the new one: in front of the first with a larger key.
unfoldable pub insert_after : {A : Type 0} → List (Element A) → Element A → List (Element A)
insert_after [] x = x ∷ []
insert_after (e ∷ es) x =
    let rest = insert_after es x in if ltb x.key e.key then x ∷ e ∷ es else e ∷ rest

-- `SortedInsert`: the empty list, the front, and the loop.
unfoldable pub sorted_insert : {A : Type 0} → List (Element A) → A → ℕ → List (Element A)
sorted_insert [] x sort_key = element x sort_key ∷ []
sorted_insert (e ∷ es) x sort_key =
    if ltb sort_key e.key
    then element x sort_key ∷ e ∷ es
    else e ∷ insert_after es (element x sort_key)

-- `SortedRemove`, and `Remove` without the key: the first element, and the list without it.
unfoldable pub sorted_remove :
    {A : Type 0} → List (Element A) → Option (Element A × List (Element A))
sorted_remove [] = none
sorted_remove (e ∷ es) = some (e, es)

abbrev pub is_empty : {A : Type 0} → List (Element A) → Bool
is_empty [] = true
is_empty (e ∷ es) = false

-- `Mapcar`, on the state that the function works on.
unfoldable pub mapcar : {A S : Type 0} → (A → S → S) → List (Element A) → S → S
mapcar func [] s = s
mapcar func (e ∷ es) s = mapcar func es (func e.item s)
