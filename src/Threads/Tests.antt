-- ===== src/Threads/Tests.antt =====
-- Two threads of nachos-3.4/code/threads that take turns, and one that sleeps in a semaphore.
use n4ch0s.Base.{ℕ, ◌∷◌, ◌≡◌, true, false, [], refl, has, replicate, Option, none, some, arith}
use n4ch0s.Threads.{
  Kernel, init, Cpu, new_thread, stack_allocate, check_overflow, fenced, restore_user_state,
  save_user_state, Thread, running, update, ready,
}
use n4ch0s.Semaphore.{Semaphore}
use n4ch0s.Semaphore
use n4ch0s.Threads.Semaphores.{p, p_round}
use n4ch0s.Base.Int.{pos}
use n4ch0s.Threads.Steps.{start, Reach, later, creates, forks, is_running, downs}
use n4ch0s.Threads.Scheduler.{
  fork, ready_to_run, sleep, dispatch, find_next_to_run, run, saved, set_status,
}
use n4ch0s.Threads.Invariant.{Reach-apart, Reach-Placed}
use n4ch0s.SortedList.{append, sorted_remove, element}
use n4ch0s.Threads.Places.{items, kind, kind_at}
use n4ch0s.Threads.Places.Sees.{Placed}
use n4ch0s.Threads.Registers.{restore-save}
use n4ch0s.Threads.Turns.Robin.{Served, round_robin}
use n4ch0s.Threads.Turns.{Cooperative}
use n4ch0s.Threads.Turns.Slice.{AllWilling-update}
use n4ch0s.Interrupt.{int_on}

abbrev test_cpu : Cpu
test_cpu = record { registers = []; page_table = 0; page_table_size = 0 }

abbrev closed : ℕ → Semaphore
closed s = record { value = pos 0; queue = [] }

-- The thread 0 forks the thread 1 and goes to sleep in the semaphore 7, so the thread 1 runs.
main_sleeps : (k : Kernel) × Reach k × (k.current ≡ 1) × (items (k.semaphores 7).queue ≡ 0 ∷ [])
unfolding init fork ready_to_run append stack_allocate new_thread p p_round Semaphore.p sleep
    dispatch find_next_to_run sorted_remove run check_overflow fenced saved
main_sleeps =
    let r = later (start 0 [] test_cpu closed (λ s. (0, refl))) (creates 1 [] refl) in
    let r' = later r (forks 1 (new_thread []) (0 ∷ []) 5 6 refl refl refl) in
    (_, later r' (downs 7 refl refl), refl, refl)

Reach-apart_example :
    (has 0 (items main_sleeps.0.ready_list) ≡ true
      → (is_running (main_sleeps.0.threads 0) ≡ false)
        × ((s : ℕ) → has 0 (items (main_sleeps.0.semaphores s).queue) ≡ false))
    × ((s s' : ℕ)
        → has 0 (items (main_sleeps.0.semaphores s).queue) ≡ true
        → has 0 (items (main_sleeps.0.semaphores s').queue) ≡ true
        → (s ≡ s') × (is_running (main_sleeps.0.threads 0) ≡ false))
Reach-apart_example = Reach-apart main_sleeps.1 0

Reach-Placed_example : Placed main_sleeps.0
Reach-Placed_example = Reach-Placed main_sleeps.1

restore-save_example :
    (restore_user_state
      (save_user_state
        (record test_cpu { registers = replicate 40 7 })
        (new_thread (replicate 40 0)))
      (record test_cpu { registers = replicate 40 9 })).registers
    ≡ replicate 40 7
unfolding new_thread
restore-save_example =
    restore-save (record test_cpu { registers = replicate 40 7 })
      (record test_cpu { registers = replicate 40 9 }) (new_thread (replicate 40 0)) refl refl refl

abbrev main : Thread
unfolding new_thread
main = record (new_thread []) { status = running }

abbrev stacked : Thread
unfolding stack_allocate new_thread
stacked = stack_allocate (new_thread []) (0 ∷ []) 5 6

abbrev one_thread : ℕ → Option Thread
one_thread = update (λ i. none) 0 (some main)

abbrev forking : ℕ → Option Thread
forking = update (update one_thread 1 (some (new_thread []))) 1 (some stacked)

-- The thread 0 runs and the thread 1, just forked, is on the ready list.
abbrev pair_of_threads : Kernel
pair_of_threads = record {
  current = 0;
  threads = update forking 1 (some (set_status stacked ready));
  ready_list = element 1 0 ∷ [];
  to_be_destroyed = none;
  level = int_on;
  cpu = test_cpu;
  semaphores = closed;
}

pair_of_threads-Reach : Reach pair_of_threads
unfolding init fork ready_to_run append stack_allocate new_thread main stacked
pair_of_threads-Reach =
    later (later (start 0 [] test_cpu closed (λ s. (0, refl))) (creates 1 [] refl))
      (forks 1 (new_thread []) (0 ∷ []) 5 6 refl refl refl)

pair_of_threads-Cooperative : Cooperative pair_of_threads
unfolding new_thread stack_allocate main stacked kind kind_at fenced
pair_of_threads-Cooperative = record {
  placed = Reach-Placed pair_of_threads-Reach;
  runner = refl;
  nobody = refl;
  willing =
      AllWilling-update forking 1 (set_status stacked ready)
        (AllWilling-update (update one_thread 1 (some (new_thread []))) 1 stacked
          (AllWilling-update one_thread 1 (new_thread [])
            (AllWilling-update (λ i. none) 0 main (λ i t e. cc) (refl, λ e. cc)) (refl, λ e. cc))
          (refl, λ e. cc))
        (refl, λ e. refl);
}

round_robin_example : Served 0 pair_of_threads
round_robin_example = round_robin 0 pair_of_threads pair_of_threads-Cooperative (omega arith)
