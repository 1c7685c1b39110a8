-- ===== src/Threads/Turns.antt =====
-- The order in which nachos-3.4/code/threads/scheduler.cc gives threads their turns.
pub mod Slice
pub mod Robin
use n4ch0s.Base.{
  ℕ, zero, suc, ◌≡◌, Option, none, some, Bool, true, false, ◌>>=◌, refl, ap, ◌∙◌, sym, ◌==◌,
  assert-pass, ==_self,
}
use n4ch0s.Threads.{
  Kernel, Thread, Point, in_code, at_root, in_yield, in_p, in_finish, update, fenced, put_thread,
}
use n4ch0s.Threads.Scheduler.{yield}
use n4ch0s.Threads.Places.{kind, waits, runs}
use n4ch0s.Threads.Places.Sees.{Placed}
use n4ch0s.Threads.Semaphores.{resume}

-- The thread that runs yields `n` times, each time whichever it is.
unfoldable pub slices : ℕ → Kernel → Option Kernel
slices zero k = some k
slices (suc n) k = yield k >>= λ k'. resume k' >>= λ k''. slices n k''

abbrev pub at_turn : Point → Bool
at_turn in_code = false
at_turn (at_root func arg) = true
at_turn (in_yield old) = true
at_turn (in_p s old) = false
at_turn in_finish = false

-- The stack is intact, and a thread that waits yielded before or is new.
abbrev pub Willing : Thread → Type 0
Willing t = (fenced t.stack ≡ true) × (kind (some t) ≡ waits → at_turn t.point ≡ true)

abbrev pub AllWilling : (ℕ → Option Thread) → Type 0
AllWilling threads = (i : ℕ) (t : Thread) → threads i ≡ some t → Willing t

-- The current thread runs, no thread has finished, and all are willing.
pub record Cooperative (k : Kernel) : Type 0 where
  pub placed : Placed k
  pub runner : kind (k.threads k.current) ≡ runs
  pub nobody : k.to_be_destroyed ≡ none
  pub willing : AllWilling k.threads
