-- ===== src/SortedList/Order.antt =====
-- The order of a sorted list of nachos-3.4/code/threads/list.cc.
use n4ch0s.Base.{
  ℕ, ◌≤◌, ◌≡◌, ◌++◌, ◌∷◌, if◌then◌else◌, suc, refl, ap, List, [], inl, inr, arith, leb, Bool-cases,
  ltb, ◌∙◌, true, false,
}
use n4ch0s.SortedList.{Element, insert_after, sorted_insert, element}

-- Every key is at least `k`.
pub data AtLeast {A : Type 0} (k : ℕ) : List (Element A) → Type 0 where
  none_below : AtLeast k []
  first_above :
      {e : Element A} {es : List (Element A)} → k ≤ e.key → AtLeast k es → AtLeast k (e ∷ es)

-- The keys do not decrease.
pub data Sorted {A : Type 0} : List (Element A) → Type 0 where
  sorted_empty : Sorted []
  sorted_first :
      {e : Element A} {es : List (Element A)} → AtLeast e.key es → Sorted es → Sorted (e ∷ es)

-- The elements that leave the list before one with the key `k` that is put in last: the order of
-- arrival decides between equal keys.
unfoldable pub up_to : {A : Type 0} → ℕ → List (Element A) → List (Element A)
up_to k [] = []
up_to k (e ∷ es) = let rest = up_to k es in if leb e.key k then e ∷ rest else rest

unfoldable pub beyond : {A : Type 0} → ℕ → List (Element A) → List (Element A)
beyond k [] = []
beyond k (e ∷ es) = let rest = beyond k es in if leb e.key k then rest else e ∷ rest

pub above : (k j : ℕ) → suc k ≤ j → leb j k ≡ false
above k j h = ground arith

pub not_above : (k j : ℕ) → ltb k j ≡ false → leb j k ≡ true
not_above k j h = ground (arith, h)

pub AtLeast-le :
    {A : Type 0} {j k : ℕ} {es : List (Element A)} → j ≤ k → AtLeast k es → AtLeast j es
AtLeast-le h none_below = none_below
AtLeast-le h (first_above p r) = first_above (omega (arith, h, p)) (AtLeast-le h r)

up_to-none : {A : Type 0} (k : ℕ) (es : List (Element A)) → AtLeast (suc k) es → up_to k es ≡ []
unfolding up_to
up_to-none k [] h = refl
up_to-none k (e ∷ es) (first_above p r) = rw (above k e.key p) (up_to-none k es r)

beyond-all : {A : Type 0} (k : ℕ) (es : List (Element A)) → AtLeast (suc k) es → beyond k es ≡ es
unfolding beyond
beyond-all k [] h = refl
beyond-all k (e ∷ es) (first_above p r) = rw (above k e.key p) (ap (λ t. e ∷ t) (beyond-all k es r))

pub AtLeast-insert :
    {A : Type 0} {k : ℕ} (es : List (Element A)) (x : Element A)
    → k ≤ x.key
    → AtLeast k es
    → AtLeast k (insert_after es x)
unfolding insert_after
AtLeast-insert [] x h r = first_above h none_below
AtLeast-insert (e ∷ es) x h (first_above p r) = elim (Bool-cases (ltb x.key e.key)) [
  | inl lt ↦ rw lt (first_above h (first_above p r))
  | inr ge ↦ rw ge (first_above p (AtLeast-insert es x h r))
]

insert_after-Sorted :
    {A : Type 0} (es : List (Element A)) (x : Element A) → Sorted es → Sorted (insert_after es x)
unfolding insert_after
insert_after-Sorted [] x s = sorted_first none_below sorted_empty
insert_after-Sorted (e ∷ es) x (sorted_first a s) = elim (Bool-cases (ltb x.key e.key)) [
  | inl lt ↦ rw lt (
      sorted_first (first_above (ground (arith, lt)) (AtLeast-le (ground (arith, lt)) a))
        (sorted_first a s))
  | inr ge ↦
      rw ge (sorted_first (AtLeast-insert es x (ground (arith, ge)) a) (insert_after-Sorted es x s))
]

-- Where the new element stands.
insert_after-split :
    {A : Type 0} (es : List (Element A)) (x : Element A)
    → Sorted es
    → insert_after es x ≡ up_to x.key es ++ (x ∷ beyond x.key es)
unfolding insert_after up_to beyond
insert_after-split [] x s = refl
insert_after-split (e ∷ es) x (sorted_first a s) = elim (Bool-cases (ltb x.key e.key)) [
  | inl lt ↦
      rw
        (
          lt,
          above x.key e.key (ground (arith, lt)),
          up_to-none x.key es (AtLeast-le (ground (arith, lt)) a),
          beyond-all x.key es (AtLeast-le (ground (arith, lt)) a),
        )
        refl
  | inr ge ↦ rw (ge, not_above x.key e.key ge) (ap (λ t. e ∷ t) (insert_after-split es x s))
]

pub as_insert_after :
    {A : Type 0} (es : List (Element A)) (x : A) (k : ℕ)
    → sorted_insert es x k ≡ insert_after es (element x k)
unfolding sorted_insert insert_after
as_insert_after [] x k = refl
as_insert_after (e ∷ es) x k = refl

-- A list in the order of its keys stays so when `SortedInsert` puts an item in.
pub sorted_insert-Sorted :
    {A : Type 0} (es : List (Element A)) (x : A) (k : ℕ) → Sorted es → Sorted (sorted_insert es x k)
sorted_insert-Sorted es x k s = rw (as_insert_after es x k) (insert_after-Sorted es (element x k) s)

-- In a sorted list the new item stands behind every item whose key is not larger than its own, the
-- items with an equal key among them, and in front of all others; the others keep their order.
pub sorted_insert-split :
    {A : Type 0} (es : List (Element A)) (x : A) (k : ℕ)
    → Sorted es
    → sorted_insert es x k ≡ up_to k es ++ (element x k ∷ beyond k es)
sorted_insert-split es x k s = as_insert_after es x k ∙ insert_after-split es (element x k) s
