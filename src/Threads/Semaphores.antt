-- ===== src/Threads/Semaphores.antt =====
-- `P` and `V` of nachos-3.4/code/threads/synch.cc on the threads of the kernel, and how a thread goes
-- on when the processor comes back to it.
use n4ch0s.Base.{ℕ, Option, none, some, ◌>>=◌, List}
use n4ch0s.SortedList.{sorted_remove, Element}
use n4ch0s.Interrupt.{IntStatus, int_off, int_on}
use n4ch0s.Threads.{Kernel, update, Point, in_p, at_root, in_code, in_yield, ready, in_finish}
use n4ch0s.Threads.Scheduler.{set_level, change_thread, sleep, after_switch, set_point, set_status}
use n4ch0s.Semaphore
use n4ch0s.Semaphore.{Semaphore, Turn, sleeps, goes_on}

abbrev pub put_semaphore : Kernel → ℕ → Semaphore → Kernel
put_semaphore k s x = record k { semaphores = update k.semaphores s x }

-- A round of the loop of `P`, and what follows the loop; `old` is the level that `P` restores.
unfoldable pub p_round : Kernel → ℕ → IntStatus → Option Kernel
p_round k s old = elim (Semaphore.p (k.semaphores s) k.current) [
  | sleeps x ↦ sleep (put_semaphore k s x) (in_p s old)
  | goes_on x ↦ some (set_level (put_semaphore k s x) old)
]

unfoldable pub p : Kernel → ℕ → Option Kernel
p k s = p_round (set_level k int_off) s k.level

-- `V` with the thread taken from the queue, if there is one, and what the semaphore and the ready list
-- become: `ReadyToRun` has marked the thread.
unfoldable pub woken :
    Kernel
    → ℕ
    → Option (Element ℕ × List (Element ℕ))
    → Semaphore × List (Element ℕ)
    → Option Kernel
woken k s none (x, list) = some (record (put_semaphore k s x) { ready_list = list })
woken k s (some (e, rest)) (x, list) =
    change_thread (record (put_semaphore k s x) { ready_list = list }) e.item
      (λ t. set_status t ready)

unfoldable pub v : Kernel → ℕ → Option Kernel
v k s = woken k s (sorted_remove (k.semaphores s).queue) (Semaphore.v (k.semaphores s) k.ready_list)

-- The thread that the processor was switched to goes on from its point.
unfoldable pub resume_at : Kernel → Point → Option Kernel
resume_at k in_code = none
resume_at k (at_root func arg) = some (set_level k int_on)
resume_at k (in_yield old) = after_switch k >>= λ k'. some (set_level k' old)
resume_at k (in_p s old) = after_switch k >>= λ k'. p_round k' s old
resume_at k in_finish = none

unfoldable pub resume : Kernel → Option Kernel
resume k = k.threads k.current >>= λ t.
    change_thread k k.current (λ t. set_point t in_code) >>= λ k'. resume_at k' t.point
