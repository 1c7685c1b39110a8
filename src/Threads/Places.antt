-- ===== src/Threads/Places.antt =====
-- Where each thread of nachos-3.4/code/threads stands: on the processor, on the ready list, in the
-- queue of one semaphore, about to be destroyed.
pub mod Moves
pub mod Effects
pub mod Sees
pub mod Switches
pub mod Waits
pub mod Wakes
use n4ch0s.Base.{ℕ, ◌==◌, ◌≡◌, Bool, true, false, List, [], ◌∷◌, has, Distinct, Option, none, some}
use n4ch0s.Threads.{
  Thread, ThreadStatus, Point, in_p, in_code, in_finish, running, ready, just_created, blocked,
}
use n4ch0s.SortedList.{Element}

pub data Kind : Type 0 where
  gone created runs waits doomed odd : Kind
  asleep : (sem : ℕ) → Kind

-- A ready thread has a point to go on from, and one that finishes is never ready again.
unfoldable pub kind_at : ThreadStatus → Point → Kind
kind_at just_created in_code = created
kind_at running in_finish = odd
kind_at running pt = runs
kind_at ready in_code = odd
kind_at ready in_finish = odd
kind_at ready pt = waits
kind_at blocked (in_p s old) = asleep s
kind_at blocked in_finish = doomed
kind_at st pt = odd

unfoldable pub kind : Option Thread → Kind
kind none = gone
kind (some t) = kind_at t.status t.point

abbrev pub is_waiting : Kind → Bool
is_waiting waits = true
is_waiting other = false

abbrev pub is_asleep : ℕ → Kind → Bool
is_asleep s (asleep sem) = sem == s
is_asleep s other = false

abbrev pub is_present : Kind → Bool
is_present gone = false
is_present created = false
is_present other = true

abbrev pub is_odd : Kind → Bool
is_odd odd = true
is_odd other = false

abbrev pub items : List (Element ℕ) → List ℕ
items [] = []
items (e ∷ es) = e.item ∷ items es

-- Exactly the waiting threads are on the ready list and exactly those asleep in a semaphore in its
-- queue, each once, no thread but the current one runs, and the thread to be destroyed has finished.
pub record Places (current : ℕ) (places : ℕ → Kind) (list : List ℕ) (queues : ℕ → List ℕ)
    (dying : Option ℕ) : Type 0 where
  pub present : is_present (places current) ≡ true
  pub sane : (i : ℕ) → is_odd (places i) ≡ false
  pub alone : (i : ℕ) → places i ≡ runs → i ≡ current
  pub listed : (i : ℕ) → has i list ≡ is_waiting (places i)
  pub queued : (s i : ℕ) → has i (queues s) ≡ is_asleep s (places i)
  pub list_once : Distinct list
  pub queue_once : (s : ℕ) → Distinct (queues s)
  pub finished : (i : ℕ) → dying ≡ some i → places i ≡ doomed
