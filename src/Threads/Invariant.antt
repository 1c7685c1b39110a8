-- ===== src/Threads/Invariant.antt =====
-- What holds in every state that the kernel of nachos-3.4/code/threads reaches.
use n4ch0s.Base.{
  ℕ, ◌≡◌, true, false, List, [], arith, refl, Option, none, some, ap, sym, has, ◌≢◌, Distinct, ◌⊎◌,
  inl, inr, Bool-cases,
}
use n4ch0s.Threads.{
  Kernel, Thread, init, new_thread, Cpu, put_thread, ThreadStatus, Point, running, just_created,
  in_finish, in_code,
}
use n4ch0s.Semaphore.{Semaphore}
use n4ch0s.Threads.Semaphores.{p}
use n4ch0s.Threads.Steps.{
  Step, user, creates, forks, yields, finishes, downs, ups, dispatches, resumes, Reach, start,
  later, is_running, executes,
}
use n4ch0s.Threads.Places.{kind, kind_at, is_odd, runs, created, items}
use n4ch0s.Threads.Places.Sees.{Placed, Sees-Placed, put_thread-Sees, same_view}
use n4ch0s.Threads.Places.Waits.{fork-Placed, p_round-Placed, resume-Placed}
use n4ch0s.Threads.Places.Switches.{yield-Placed, finish-Placed, dispatch-Placed}
use n4ch0s.Base.Int.{pos}
use n4ch0s.Threads.Scheduler.{set_level}
use n4ch0s.Threads.Places.Moves.{made}
use mathlib.Core.Path.{subst}
use n4ch0s.Interrupt.{int_off}
use n4ch0s.Threads.Places.Wakes.{v-Placed}

abbrev thread_at : ThreadStatus → Point → Thread → Thread
thread_at st pt t = record t { status = st; point = pt }

running-runs-at :
    (st : ThreadStatus) (pt : Point) (t : Thread)
    → is_running (some (thread_at st pt t)) ≡ true
    → is_odd (kind_at st pt) ≡ false
    → kind_at st pt ≡ runs
unfolding kind_at
running-runs-at running in_finish t h o = cc
running-runs-at st pt t h o = ground arith

running-runs : (t : Option Thread) → is_running t ≡ true → is_odd (kind t) ≡ false → kind t ≡ runs
unfolding kind
running-runs none h o = cc
running-runs (some t) h o = running-runs-at t.status t.point t h o

executes-runs-at :
    (st : ThreadStatus) (pt : Point) (t : Thread)
    → executes (some (thread_at st pt t)) ≡ true
    → kind_at st pt ≡ runs
unfolding kind_at
executes-runs-at running in_code t h = refl
executes-runs-at st pt t h = cc

executes-runs : (t : Option Thread) → executes t ≡ true → kind t ≡ runs
unfolding kind
executes-runs none h = cc
executes-runs (some t) h = executes-runs-at t.status t.point t h

runs-running-at :
    (st : ThreadStatus) (pt : Point) (t : Thread)
    → is_running (some (thread_at st pt t)) ≡ false
    → kind_at st pt ≢ runs
unfolding kind_at
runs-running-at just_created in_code t h e = cc
runs-running-at st pt t h e = ground arith

runs-running : (t : Option Thread) → is_running t ≡ false → kind t ≢ runs
unfolding kind
runs-running none h e = cc
runs-running (some t) h e = runs-running-at t.status t.point t h e

init-Placed :
    (main : ℕ) (registers : List ℕ) (cpu : Cpu) (sems : ℕ → Semaphore)
    → ((s : ℕ) → (n : ℕ) × (sems s ≡ record { value = pos n; queue = [] }))
    → Placed (init main registers cpu sems)
unfolding init new_thread kind kind_at
init-Placed main registers cpu sems h = record {
  present = ground arith;
  sane = λ i. ground arith;
  alone = λ i e. ground arith;
  listed = λ i. ground arith;
  queued = λ s i. ground (arith, ap (λ (x : Semaphore). has i (items x.queue)) (h s).1);
  list_once = tt;
  queue_once = λ s. subst (λ (x : Semaphore). Distinct (items x.queue)) (sym (h s).1) tt;
  finished = λ i e. cc;
}

creates-Placed :
    (k : Kernel) (i : ℕ) (registers : List ℕ)
    → Placed k
    → k.threads i ≡ none
    → Placed (put_thread k i (some (new_thread registers)))
unfolding kind kind_at new_thread
creates-Placed k i registers w h =
    Sees-Placed (put_thread k i (some (new_thread registers)))
      (put_thread-Sees k (same_view k) i (some (new_thread registers)) created refl)
      (made w i (ap kind h))

-- Every step leaves every thread in its place.
pub Step-Placed : {k k' : Kernel} → Step k k' → Placed k → Placed k'
unfolding p
Step-Placed (user c x) w = w
Step-Placed {k} (creates i registers free) w = creates-Placed k i registers w free
Step-Placed {k} (forks i t words func arg there new e) w =
    fork-Placed k i t words func arg w there new e
Step-Placed {k} (yields x e) w = yield-Placed k w (executes-runs (k.threads k.current) x) e
Step-Placed {k} (finishes x e) w = finish-Placed k w (executes-runs (k.threads k.current) x) e
Step-Placed {k} (downs s x e) w =
    p_round-Placed (set_level k int_off) s k.level w (executes-runs (k.threads k.current) x) e
Step-Placed {k} (ups s e) w = v-Placed k s w e
Step-Placed {k} (dispatches x e) w = dispatch-Placed k w (runs-running (k.threads k.current) x) e
Step-Placed {k} (resumes x e) w =
    resume-Placed k w (running-runs (k.threads k.current) x (w.sane k.current)) e

-- In every reachable state the threads on the ready list are exactly those that are ready, the
-- threads in the queue of a semaphore are exactly those blocked in its `P`, each stands there once, and
-- no thread but the current one is running.
pub Reach-Placed : {k : Kernel} → Reach k → Placed k
Reach-Placed (start main registers cpu sems h) = init-Placed main registers cpu sems h
Reach-Placed (later r st) = Step-Placed st (Reach-Placed r)

is_running-runs-at :
    (st : ThreadStatus) (pt : Point) (t : Thread)
    → is_running (some (thread_at st pt t)) ≡ true
    → (kind_at st pt ≡ runs) ⊎ (is_odd (kind_at st pt) ≡ true)
unfolding kind_at
is_running-runs-at running in_finish t h = inr refl
is_running-runs-at running pt t h = inl refl
is_running-runs-at st pt t h = cc

-- A thread in a place other than the processor is not running.
not_running : (o : Option Thread) → kind o ≢ runs → is_odd (kind o) ≡ false → is_running o ≡ false
unfolding kind
not_running none n h = refl
not_running (some t) n h = elim (Bool-cases (is_running (some t))) [
  | inl e ↦ elim (is_running-runs-at t.status t.point t e) [ inl r ↦ absurd (n r) | inr o ↦ cc ]
  | inr e ↦ e
]

-- In every reachable state a thread on the ready list is not running and sleeps in no semaphore, and a
-- thread sleeps in one semaphore at most.
pub Reach-apart :
    {k : Kernel}
    → Reach k
    → (i : ℕ)
    → (has i (items k.ready_list) ≡ true
        → (is_running (k.threads i) ≡ false)
          × ((s : ℕ) → has i (items (k.semaphores s).queue) ≡ false))
      × ((s s' : ℕ)
          → has i (items (k.semaphores s).queue) ≡ true
          → has i (items (k.semaphores s').queue) ≡ true
          → (s ≡ s') × (is_running (k.threads i) ≡ false))
Reach-apart {k} r i =
    let w : Placed k = Reach-Placed r in
    (
      λ h. (
        not_running (k.threads i) (λ e. ground (arith, w.listed i)) (w.sane i),
        λ s. ground (arith, w.listed i, w.queued s i),
      ),
      λ s s' h h'. (
        ground (arith, w.queued s i, w.queued s' i),
        not_running (k.threads i) (λ e. ground (arith, w.queued s i)) (w.sane i),
      ),
    )
