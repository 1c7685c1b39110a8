-- ===== src/Semaphore/Wake.antt =====
-- What `V` of nachos-3.4/code/threads/synch.cc does for the threads that sleep in `P`.
use n4ch0s.Base.{ℕ, ◌≡◌, ◌∙◌, ◌∷◌, refl, ap, false, List, [], arith}
use n4ch0s.Semaphore.{Semaphore, v, p, is_zero, goes_on}
use n4ch0s.SortedList.{Element, sorted_remove, append}
use n4ch0s.Base.Int.{◌+ℤ◌, ◌-ℤ◌, pos, ℤ}

-- The first sleeper, if there is one, is at the end of the ready list, and the others keep their
-- places in the queue.
pub data Woken (s : Semaphore) (ready : List (Element ℕ))
    : Semaphore × List (Element ℕ) → Type 0 where
  nobody : (x : Semaphore) → s.queue ≡ [] → x.queue ≡ [] → Woken s ready (x, ready)
  woken :
      (x : Semaphore) (e : Element ℕ)
      → s.queue ≡ e ∷ x.queue
      → Woken s ready (x, append ready e.item)

v-Woken :
    (q : List (Element ℕ)) (value : ℤ) (ready : List (Element ℕ))
    → Woken
        (record { value = value; queue = q })
        ready
        (v (record { value = value; queue = q }) ready)
unfolding v sorted_remove
v-Woken [] value ready = nobody _ refl refl
v-Woken (e ∷ q) value ready = woken _ e refl

v-value :
    (q : List (Element ℕ)) (value : ℤ) (ready : List (Element ℕ))
    → (v (record { value = value; queue = q }) ready).0.value ≡ value +ℤ pos 1
unfolding v sorted_remove
v-value [] value ready = refl
v-value (e ∷ q) value ready = refl

up_down : (n : ℕ) → ((pos n +ℤ pos 1) -ℤ pos 1 ≡ pos n) × (is_zero (pos n +ℤ pos 1) ≡ false)
unfolding ◌+ℤ◌ ◌-ℤ◌
up_down n = (ground arith, ground arith)

p-positive :
    (x : Semaphore) (thread n : ℕ)
    → x.value ≡ pos n +ℤ pos 1
    → p x thread ≡ goes_on (record x { value = pos n })
unfolding p
p-positive x thread n h =
    rw (ap is_zero h ∙ (up_down n).1)
      (ap (λ z. goes_on (record x { value = z })) (ap (λ (z : ℤ). z -ℤ pos 1) h ∙ (up_down n).0))

-- For a value that is not negative: after `V` the first sleeper, if there is one, is at the end of the
-- ready list and the others keep their places, and the next `P`, of whatever thread, goes on without
-- sleeping and leaves the value as it was before.
pub p-v :
    (s : Semaphore) (ready : List (Element ℕ)) (thread n : ℕ)
    → s.value ≡ pos n
    → (p (v s ready).0 thread ≡ goes_on (record (v s ready).0 { value = pos n }))
      × Woken s ready (v s ready)
p-v s ready thread n h = (
  p-positive (v s ready).0 thread n (v-value s.queue s.value ready ∙ ap (λ (z : ℤ). z +ℤ pos 1) h),
  v-Woken s.queue s.value ready,
)
