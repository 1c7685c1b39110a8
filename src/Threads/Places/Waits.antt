-- ===== src/Threads/Places/Waits.antt =====
-- `P`, `V`, `Fork` and the end of a switch, of nachos-3.4/code/threads, leave every thread in its place.
use n4ch0s.Base.{
  ℕ, ◌==◌, ◌≡◌, ◌++◌, true, false, List, [], ◌∷◌, arith, refl, none, some, ap, sym, ◌∙◌, ◌>>=◌, inl,
  inr, Bool-cases, Option-cases, not, >>=-eq-some, assert,
}
use n4ch0s.Threads.{
  update, Kernel, Thread, just_created, in_p, ThreadStatus, Point, stack_allocate, in_code,
  put_thread, at_root, in_yield, in_finish,
}
use n4ch0s.SortedList.{append}
use n4ch0s.Semaphore
use n4ch0s.Base.Int.{◌-ℤ◌, pos}
use n4ch0s.Semaphore.{Semaphore, Turn, sleeps, goes_on, is_zero}
use n4ch0s.Threads.Semaphores.{p_round, put_semaphore, resume_at, resume}
use n4ch0s.Threads.Places.Sees.{
  Sees, places_of, Placed, queues_of, Sees-Placed, change_thread-Sees, same_view, put_thread-Sees,
  ready_to_run-Sees,
}
use n4ch0s.Threads.Places.{kind_at, items, kind, runs, asleep, is_odd, created, gone, waits}
use n4ch0s.Threads.Scheduler.{
  fork, destroy, sleep, set_level, after_switch, restored, set_point, change_thread, ready_to_run,
}
use n4ch0s.Threads.Places.Switches.{sleep-Placed, Sees-again, change_thread-at}
use mathlib.Core.Option.{some-injective}
use n4ch0s.Threads.Places.Moves.{falls_asleep, removed, forked}
use mathlib.Core.Path.{subst}
use n4ch0s.Interrupt.{IntStatus, int_off}
use n4ch0s.Threads.Places.Effects.{items-append, change_thread-eq}

-- What a round of `P` is, by the value of the semaphore.
p_round-zero :
    (k : Kernel) (s : ℕ) (old : IntStatus)
    → is_zero (k.semaphores s).value ≡ true
    → p_round k s old
      ≡ sleep
          (put_semaphore k s
            (record (k.semaphores s) { queue = append (k.semaphores s).queue k.current }))
          (in_p s old)
unfolding p_round Semaphore.p
p_round-zero k s old h = rw (h, p_round, Semaphore.p) refl

p_round-positive :
    (k : Kernel) (s : ℕ) (old : IntStatus)
    → is_zero (k.semaphores s).value ≡ false
    → p_round k s old
      ≡ some (
          set_level
            (put_semaphore k s
              (record (k.semaphores s) { value = (k.semaphores s).value -ℤ pos 1 }))
            old)
unfolding p_round Semaphore.p
p_round-positive k s old h = rw (h, p_round, Semaphore.p) refl

pub put_semaphore-Sees :
    (k : Kernel) (s : ℕ) (x : Semaphore)
    → Sees
        (put_semaphore k s x)
        k.current
        (places_of k.threads)
        (items k.ready_list)
        (update (queues_of k.semaphores) s (items x.queue))
        k.to_be_destroyed
put_semaphore-Sees k s x = record {
  currents = refl;
  kinds = λ i. refl;
  lists = refl;
  sleepers = λ j. elim (Bool-cases (s == j)) [ inl e ↦ rw e refl | inr e ↦ rw e refl ];
  deaths = refl;
}

pub p_round-Placed :
    (k : Kernel) (s : ℕ) (old : IntStatus) {k' : Kernel}
    → Placed k
    → kind (k.threads k.current) ≡ runs
    → p_round k s old ≡ some k'
    → Placed k'
unfolding kind_at
p_round-Placed k s old {k'} w r e = elim (Bool-cases (is_zero (k.semaphores s).value)) [
  | inl z ↦
      let x : Semaphore = record (k.semaphores s) {
        queue = append (k.semaphores s).queue k.current;
      } in
      sleep-Placed (put_semaphore k s x) (in_p s old) (asleep s)
        (Sees-again (put_semaphore k s x) (put_semaphore-Sees k s x) (λ j. refl) refl
          (λ j.
            ap (λ x. update (queues_of k.semaphores) s x j)
              (items-append (k.semaphores s).queue k.current)))
        refl (λ g. cc) (falls_asleep w s r) (sym (p_round-zero k s old z) ∙ e)
  | inr z ↦
      let x : Semaphore = record (k.semaphores s) { value = (k.semaphores s).value -ℤ pos 1 } in
      subst Placed (some-injective _ _ (sym (p_round-positive k s old z) ∙ e)) (
        Sees-Placed (put_semaphore k s x)
          (Sees-again (put_semaphore k s x) (put_semaphore-Sees k s x) (λ j. refl) refl
            (λ j. ground arith))
          w)
]

kind_at-in_code :
    (st : ThreadStatus) (pt : Point) → kind_at st pt ≡ runs → kind_at st in_code ≡ runs
unfolding kind_at
kind_at-in_code just_created in_code h = cc
kind_at-in_code st pt h = ground arith

kind_at-created :
    (pt : Point) → is_odd (kind_at just_created pt) ≡ false → kind_at just_created pt ≡ created
unfolding kind_at
kind_at-created in_code h = refl
kind_at-created pt h = cc

pub fork-Placed :
    (k : Kernel) (i : ℕ) (t : Thread) (words : List ℕ) (func arg : ℕ) {k' : Kernel}
    → Placed k
    → k.threads i ≡ some t
    → t.status ≡ just_created
    → fork k i words func arg ≡ some k'
    → Placed k'
unfolding fork kind kind_at stack_allocate
fork-Placed k i t words func arg {k'} w found new e =
    let stacked : Thread → Thread = λ t. stack_allocate t words func arg in
    let back : Kernel → Kernel = λ k'. set_level k' k.level in
    let (k₁, changed, e₁) =
      >>=-eq-some (change_thread k i stacked)
        (λ k'. ready_to_run (set_level k' int_off) i >>= λ k''. some (back k'')) e in
    let (k₂, listed, made) =
      >>=-eq-some (ready_to_run (set_level k₁ int_off) i) (λ k''. some (back k'')) e₁ in
    let (u, there, put) = change_thread-eq k i stacked changed in
    let (u', there') = change_thread-at k i stacked changed in
    let s₁ : Sees k₁ k.current (update (places_of k.threads) i (kind (some (stacked u))))
        (items k.ready_list) (queues_of k.semaphores) k.to_be_destroyed =
      subst
        (λ (k₁ : Kernel).
          Sees k₁ k.current (update (places_of k.threads) i (kind (some (stacked u))))
            (items k.ready_list) (queues_of k.semaphores) k.to_be_destroyed)
        put (put_thread-Sees k (same_view k) i (some (stacked u)) (kind (some (stacked u))) refl) in
    let s₂ : Sees k₂ k.current
        (update (update (places_of k.threads) i (kind (some (stacked u)))) i waits)
        (items k.ready_list ++ (i ∷ [])) (queues_of k.semaphores) k.to_be_destroyed =
      ready_to_run-Sees (set_level k₁ int_off) s₁ i
        (λ x g. rw (some-injective _ _ (sym g ∙ there')) refl) listed in
    let fresh : kind (k.threads i) ≡ created =
      ap kind found
      ∙ ap (λ st. kind_at st t.point) new
      ∙ kind_at-created t.point
          (ap is_odd (sym (ap kind found ∙ ap (λ st. kind_at st t.point) new)) ∙ w.sane i) in
    subst Placed (some-injective _ _ made)
      (Sees-Placed k₂ (Sees-again k₂ s₂ (λ j. ground arith) refl (λ j. refl)) (forked w i fresh))

pub destroy-Placed :
    (k : Kernel) {k' : Kernel}
    → Placed k
    → kind (k.threads k.current) ≡ runs
    → destroy k ≡ some k'
    → Placed k' × (kind (k'.threads k'.current) ≡ runs)
unfolding kind destroy
destroy-Placed k {k'} w r e = elim (Option-cases k.to_be_destroyed) [
  | inl nobody ↦
      subst (λ (k' : Kernel). Placed k' × (kind (k'.threads k'.current) ≡ runs))
        (some-injective _ _ (rw (nobody, destroy) at e)) (w, r)
  | inr (i, dead) ↦
      let k₁ : Kernel = record (put_thread k i none) { to_be_destroyed = none } in
      let (u, passed, made) =
        >>=-eq-some (assert (not (i == k.current))) (λ u. some k₁) (rw (dead, destroy) at e) in
      let s₁ : Sees k₁ k.current (update (places_of k.threads) i gone) (items k.ready_list)
          (queues_of k.semaphores) none =
        record {
          currents = refl;
          kinds = λ j. elim (Bool-cases (i == j)) [ inl e ↦ rw e refl | inr e ↦ rw e refl ];
          lists = refl;
          sleepers = λ j. refl;
          deaths = refl;
        } in
      subst (λ (k' : Kernel). Placed k' × (kind (k'.threads k'.current) ≡ runs))
        (some-injective _ _ made)
        (
          Sees-Placed k₁ s₁ (removed w i (w.finished i dead) r),
          ground (arith, s₁.kinds k.current, w.finished i dead),
        )
]

pub after_switch-Placed :
    (k : Kernel) {k' : Kernel}
    → Placed k
    → kind (k.threads k.current) ≡ runs
    → after_switch k ≡ some k'
    → Placed k' × (kind (k'.threads k'.current) ≡ runs)
unfolding after_switch
after_switch-Placed k w r e =
    let set_cpu : Kernel → Thread → Kernel =
      λ k' t. record k' { cpu = restored t.space t k'.cpu } in
    let (k₁, gone_now, e₁) =
      >>=-eq-some (destroy k) (λ k'. k'.threads k'.current >>= λ t. some (set_cpu k' t)) e in
    let (t, there, made) = >>=-eq-some (k₁.threads k₁.current) (λ t. some (set_cpu k₁ t)) e₁ in
    let (w₁, r₁) = destroy-Placed k w r gone_now in
    subst (λ (k' : Kernel). Placed k' × (kind (k'.threads k'.current) ≡ runs))
      (some-injective _ _ made) (w₁, r₁)

pub resume_at-Placed :
    (k : Kernel) (pt : Point) {k' : Kernel}
    → Placed k
    → kind (k.threads k.current) ≡ runs
    → resume_at k pt ≡ some k'
    → Placed k'
unfolding resume_at
resume_at-Placed k in_code w r e = cc
resume_at-Placed k (at_root func arg) w r e = subst Placed (some-injective _ _ e) w
resume_at-Placed k (in_yield old) w r e =
    let (k₁, back, made) = >>=-eq-some (after_switch k) (λ k'. some (set_level k' old)) e in
    subst Placed (some-injective _ _ made) (after_switch-Placed k w r back).0
resume_at-Placed k (in_p s old) w r e =
    let (k₁, back, round) = >>=-eq-some (after_switch k) (λ k'. p_round k' s old) e in
    let (w₁, r₁) = after_switch-Placed k w r back in p_round-Placed k₁ s old w₁ r₁ round
resume_at-Placed k in_finish w r e = cc

pub resume-Placed :
    (k : Kernel) {k' : Kernel}
    → Placed k
    → kind (k.threads k.current) ≡ runs
    → resume k ≡ some k'
    → Placed k'
unfolding resume kind kind_at
resume-Placed k w r e =
    let here : Thread → Thread = λ t. set_point t in_code in
    let (t, there, e₁) =
      >>=-eq-some (k.threads k.current)
        (λ t. change_thread k k.current here >>= λ k'. resume_at k' t.point) e in
    let (k₁, changed, e₂) =
      >>=-eq-some (change_thread k k.current here) (λ k'. resume_at k' t.point) e₁ in
    let s₁ : Sees k₁ k.current (update (places_of k.threads) k.current runs) (items k.ready_list)
        (queues_of k.semaphores) k.to_be_destroyed =
      change_thread-Sees k (same_view k) k.current here runs
        (λ u g. kind_at-in_code u.status u.point (g ∙ r)) changed in
    let s₂ : Sees k₁ k.current (places_of k.threads) (items k.ready_list) (queues_of k.semaphores)
        k.to_be_destroyed =
      Sees-again k₁ s₁ (λ j. ground arith) refl (λ j. refl) in
    resume_at-Placed k₁ t.point (Sees-Placed k₁ s₂ w)
      (s₂.kinds k₁.current ∙ ap (places_of k.threads) s₂.currents ∙ r) e₂
