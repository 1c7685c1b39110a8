-- ===== src/Threads/Steps.antt =====
-- The steps of the kernel of nachos-3.4/code/threads, and the states that they reach.
use n4ch0s.Base.{ℕ, ◌≡◌, Option, none, some, List, Bool, true, false, []}
use n4ch0s.Threads.{
  Kernel, Thread, Cpu, init, new_thread, put_thread, just_created, running, ready, blocked,
}
use n4ch0s.Threads.{
  Kernel, Thread, Cpu, just_created, running, ready, blocked, in_code, at_root, in_yield, in_p,
  in_finish, init, new_thread, put_thread,
}
use n4ch0s.Threads.Scheduler.{fork, yield, finish, dispatch}
use n4ch0s.Threads.Semaphores.{p, v, resume}
use n4ch0s.Semaphore.{Semaphore}
use n4ch0s.Base.Int.{pos}

abbrev pub is_running : Option Thread → Bool
is_running none = false
is_running (some t) = elim t.status [
  | just_created ↦ false
  | running ↦ true
  | ready ↦ false
  | blocked ↦ false
]

-- The current thread executes code of its own, and not the end of a switch.
abbrev pub executes : Option Thread → Bool
executes none = false
executes (some t) = elim t.status [
  | just_created ↦ false
  | running ↦ elim t.point [
    | in_code ↦ true
    | at_root f a ↦ false
    | in_yield o ↦ false
    | in_p s o ↦ false
    | in_finish ↦ false
  ]
  | ready ↦ false
  | blocked ↦ false
]

-- `new Thread` takes an address that is free, and `Fork` is called once. A handler of an interrupt
-- calls `V` between two instructions of a thread or while the processor idles in `Sleep`, and the tick
-- of the clock that comes with enabling interrupts is a step of its own.
pub data Step (k : Kernel) : Kernel → Type 0 where
  user : (c : Cpu) → executes (k.threads k.current) ≡ true → Step k (record k { cpu = c })
  creates :
      (i : ℕ) (registers : List ℕ)
      → k.threads i ≡ none
      → Step k (put_thread k i (some (new_thread registers)))
  forks :
      (i : ℕ) (t : Thread) (words : List ℕ) (func arg : ℕ) {k' : Kernel}
      → k.threads i ≡ some t
      → t.status ≡ just_created
      → fork k i words func arg ≡ some k'
      → Step k k'
  yields : {k' : Kernel} → executes (k.threads k.current) ≡ true → yield k ≡ some k' → Step k k'
  finishes : {k' : Kernel} → executes (k.threads k.current) ≡ true → finish k ≡ some k' → Step k k'
  downs :
      (s : ℕ) {k' : Kernel} → executes (k.threads k.current) ≡ true → p k s ≡ some k' → Step k k'
  ups : (s : ℕ) {k' : Kernel} → v k s ≡ some k' → Step k k'
  dispatches :
      {k' : Kernel} → is_running (k.threads k.current) ≡ false → dispatch k ≡ some k' → Step k k'
  resumes : {k' : Kernel} → is_running (k.threads k.current) ≡ true → resume k ≡ some k' → Step k k'

-- `Initialize`, with semaphores on which nobody sleeps.
pub data Reach : Kernel → Type 0 where
  start :
      (main : ℕ) (registers : List ℕ) (cpu : Cpu) (sems : ℕ → Semaphore)
      → ((s : ℕ) → (n : ℕ) × (sems s ≡ record { value = pos n; queue = [] }))
      → Reach (init main registers cpu sems)
  later : {k k' : Kernel} → Reach k → Step k k' → Reach k'
