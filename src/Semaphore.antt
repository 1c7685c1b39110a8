-- ===== src/Semaphore.antt =====
-- `Semaphore` of nachos-3.4/code/threads/synch.cc and `STable` of nachos-3.4/code/userprog/stable.cc.
pub mod Wake
pub mod Table
mod Tests
use n4ch0s.Base.{ℕ, ◌==◌, if◌then◌else◌, Bool, false, none, some, List}
use n4ch0s.Base.Int.{ℤ, pos, ◌-ℤ◌, negsuc, ◌+ℤ◌}
use n4ch0s.SortedList.{append, Element, sorted_remove}

-- A thread is its number. The value is an `int` that a user program may choose.
pub record Semaphore : Type 0 where
  pub value : ℤ
  pub queue : List (Element ℕ)

abbrev pub is_zero : ℤ → Bool
is_zero (pos n) = n == 0
is_zero (negsuc n) = false

-- One round of the loop in `P`, with interrupts off: the thread sleeps in the queue, and runs the next
-- round when it is woken, or it goes on with the value decremented.
pub data Turn : Type 0 where
  sleeps : Semaphore → Turn
  goes_on : Semaphore → Turn

unfoldable pub p : Semaphore → ℕ → Turn
p s thread =
    if is_zero s.value
    then sleeps (record s { queue = append s.queue thread })
    else goes_on (record s { value = s.value -ℤ pos 1 })

-- `V`, with the scheduler's ready list: the first sleeper becomes ready, in any case the value goes up.
unfoldable pub v : Semaphore → List (Element ℕ) → Semaphore × List (Element ℕ)
v s ready = elim (sorted_remove s.queue) [
  | none ↦ (record s { value = s.value +ℤ pos 1 }, ready)
  | some (e, rest) ↦ (record s { value = s.value +ℤ pos 1; queue = rest }, append ready e.item)
]
