-- ===== src/Threads/Scheduler.antt =====
-- nachos-3.4/code/threads/scheduler.cc, and the operations of thread.cc that give up the processor.
use n4ch0s.Base.{ℕ, Option, none, some, List, assert, ◌>>◌, ◌>>=◌, not, ◌==◌}
use n4ch0s.SortedList.{append, sorted_remove}
use n4ch0s.Interrupt.{IntStatus, int_off, is_off}
use n4ch0s.Threads.{
  Kernel, Thread, ThreadStatus, Point, put_thread, ready, save_user_state, check_overflow,
  restore_state, stack_allocate, blocked, in_yield, in_finish, running, restore_user_state,
  AddrSpace, Cpu,
}

abbrev pub set_level : Kernel → IntStatus → Kernel
set_level k now = record k { level = now }

-- `setStatus`, and the change of the saved state by `SWITCH`.
abbrev pub set_status : Thread → ThreadStatus → Thread
set_status t st = record t { status = st }

abbrev pub set_point : Thread → Point → Thread
set_point t pt = record t { point = pt }

abbrev pub change_thread : Kernel → ℕ → (Thread → Thread) → Option Kernel
change_thread k i f = k.threads i >>= λ t. some (put_thread k i (some (f t)))

-- `ReadyToRun`.
unfoldable pub ready_to_run : Kernel → ℕ → Option Kernel
ready_to_run k i = change_thread k i (λ t. set_status t ready) >>= λ k'.
    some (record k' { ready_list = append k.ready_list i })

-- `FindNextToRun`: the thread, and the kernel without it on the list.
unfoldable pub find_next_to_run : Kernel → Option (ℕ × Kernel)
find_next_to_run k =
    sorted_remove k.ready_list >>= λ (e, rest). some (e.item, record k { ready_list = rest })

-- A user program's registers are saved.
unfoldable pub saved : Option AddrSpace → Cpu → Thread → Thread
saved none c t = t
saved (some a) c t = save_user_state c t

-- `Run` up to the return of `SWITCH` in the other thread.
unfoldable pub run : Kernel → ℕ → Option Kernel
run k next_thread = k.threads k.current >>= λ old.
    check_overflow old
    >> change_thread (put_thread k k.current (some (saved old.space k.cpu old))) next_thread
        (λ t. set_status t running)
    >>= λ k'. some (record k' { current = next_thread })

-- `delete threadToBeDestroyed`, with the ASSERT of the destructor.
unfoldable pub destroy : Kernel → Option Kernel
destroy k = elim k.to_be_destroyed [
  | none ↦ some k
  | some i ↦
      assert (not (i == k.current))
      >> some (record (put_thread k i none) { to_be_destroyed = none })
]

unfoldable pub restored : Option AddrSpace → Thread → Cpu → Cpu
restored none t c = c
restored (some a) t c = restore_state a (restore_user_state t c)

-- `Run` from the return of `SWITCH` on.
unfoldable pub after_switch : Kernel → Option Kernel
after_switch k = destroy k >>= λ k'.
    k'.threads k'.current >>= λ t. some (record k' { cpu = restored t.space t k'.cpu })

-- `Fork`, for a thread other than the one that runs; the level is restored at the end.
unfoldable pub fork : Kernel → ℕ → List ℕ → (func arg : ℕ) → Option Kernel
fork k i words func arg = change_thread k i (λ t. stack_allocate t words func arg) >>= λ k'.
    ready_to_run (set_level k' int_off) i >>= λ k''. some (set_level k'' k.level)

-- A round of the loop in `Sleep`: the first thread of the ready list is switched to. Where there is
-- none, `Idle` waits for an interrupt, and the round comes again.
unfoldable pub dispatch : Kernel → Option Kernel
dispatch k = elim (find_next_to_run k) [ none ↦ some k | some (i, k') ↦ run k' i ]

-- `Sleep`; the caller, and so the point to go on from, is `pt`.
unfoldable pub sleep : Kernel → Point → Option Kernel
sleep k pt =
    assert (is_off k.level)
    >> change_thread k k.current (λ t. set_status (set_point t pt) blocked)
    >>= λ k'. dispatch k'

-- `Yield` from the removal of the next thread on: the thread that runs goes to the end of the list.
unfoldable pub give_way : Kernel → IntStatus → ℕ → Option Kernel
give_way k old_level next_thread =
    change_thread k k.current (λ t. set_point t (in_yield old_level)) >>= λ k'.
    ready_to_run k' k.current >>= λ k''. run k'' next_thread

-- `Yield`.
unfoldable pub yield : Kernel → Option Kernel
yield k = elim (find_next_to_run (set_level k int_off)) [
  | none ↦ some k
  | some (i, k') ↦ give_way k' k.level i
]

-- `Finish`.
unfoldable pub finish : Kernel → Option Kernel
finish k = sleep (record (set_level k int_off) { to_be_destroyed = some k.current }) in_finish
