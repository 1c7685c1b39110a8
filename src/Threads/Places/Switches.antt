-- ===== src/Threads/Places/Switches.antt =====
-- The operations of nachos-3.4/code/threads that give up the processor leave every thread in its place.
use n4ch0s.Base.{
  ℕ, ◌≡◌, ◌++◌, List, [], ◌∷◌, arith, refl, Option, some, ap, sym, ◌∙◌, ◌>>=◌, ◌≢◌, inl, inr,
  Option-cases, ◌>>◌, has, >>=-eq-some, assert, ==_self,
}
use n4ch0s.Threads.{
  update, Kernel, Thread, Point, blocked, in_finish, ThreadStatus, in_yield, just_created, in_code,
}
use n4ch0s.Threads.Places.{Kind, Places, kind, kind_at, runs, doomed, waits}
use n4ch0s.Threads.Scheduler.{
  dispatch, sleep, finish, set_level, find_next_to_run, run, set_status, yield, set_point,
  change_thread, give_way, ready_to_run,
}
use n4ch0s.Threads.Places.Sees.{
  Sees, Placed, find_next_to_run-Sees, same_view, Sees-Placed, run-Sees, change_thread-Sees,
  ready_to_run-Sees,
}
use mathlib.Core.Path.{subst}
use mathlib.Core.Option.{some-injective}
use n4ch0s.Threads.Places.Moves.{ends, dispatched, steps_aside}
use n4ch0s.Interrupt.{is_off, IntStatus, int_off}
use n4ch0s.Threads.Places.Effects.{change_thread-eq}

pub Sees-again :
    (k : Kernel) {c : ℕ} {p p' : ℕ → Kind} {l l' : List ℕ} {q q' : ℕ → List ℕ} {d : Option ℕ}
    → Sees k c p l q d
    → ((j : ℕ) → p j ≡ p' j)
    → l ≡ l'
    → ((j : ℕ) → q j ≡ q' j)
    → Sees k c p' l' q' d
Sees-again k s h e f = record {
  currents = s.currents;
  kinds = λ j. s.kinds j ∙ h j;
  lists = s.lists ∙ e;
  sleepers = λ j. s.sleepers j ∙ f j;
  deaths = s.deaths;
}

pub dispatch-Placed :
    (k : Kernel) {k' : Kernel}
    → Placed k
    → kind (k.threads k.current) ≢ runs
    → dispatch k ≡ some k'
    → Placed k'
unfolding dispatch
dispatch-Placed k {k'} w n e = elim (Option-cases (find_next_to_run k)) [
  | inl none_left ↦ subst Placed (some-injective _ _ (rw (none_left, dispatch) at e)) w
  | inr (next, found) ↦
      let (r, split, s) = find_next_to_run-Sees k (same_view k) found in
      let ran : run next.1 next.0 ≡ some k' = rw (found, dispatch) at e in
      let here : kind (k.threads next.0) ≡ waits =
        ground (arith, w.listed next.0, ap (has next.0) split) in
      Sees-Placed k' (run-Sees next.1 s next.0 here ran) (dispatched w next.0 r split n)
]

pub sleep-Placed :
    (k : Kernel) (pt : Point) (x : Kind) {k' : Kernel} {c : ℕ} {p : ℕ → Kind} {l : List ℕ}
    {q : ℕ → List ℕ} {d : Option ℕ}
    → Sees k c p l q d
    → kind_at blocked pt ≡ x
    → x ≢ runs
    → Places c (update p c x) l q d
    → sleep k pt ≡ some k'
    → Placed k'
unfolding sleep kind
sleep-Placed k pt x {k'} {c} {p} {l} {q} {d} s h n w e =
    let asleep_now : Thread → Thread = λ t. set_status (set_point t pt) blocked in
    let (k₁, slept, dispatched) =
      >>=-eq-some (assert (is_off k.level) >> change_thread k k.current asleep_now)
        (λ k'. dispatch k') e in
    let (u, off, changed) =
      >>=-eq-some (assert (is_off k.level)) (λ u. change_thread k k.current asleep_now) slept in
    let s₁ : Sees k₁ c (update p k.current x) l q d =
      change_thread-Sees k s k.current asleep_now x (λ t g. h) changed in
    let s₂ : Sees k₁ c (update p c x) l q d =
      Sees-again k₁ s₁ (λ j. ap (λ i. update p i x j) s.currents) refl (λ j. refl) in
    dispatch-Placed k₁ (Sees-Placed k₁ s₂ w)
      (λ g. n (ground (arith, s₂.kinds k₁.current, s₂.currents))) dispatched

pub finish-Placed :
    (k : Kernel) {k' : Kernel}
    → Placed k
    → kind (k.threads k.current) ≡ runs
    → finish k ≡ some k'
    → Placed k'
unfolding finish kind_at
finish-Placed k w r e =
    sleep-Placed (record (set_level k int_off) { to_be_destroyed = some k.current }) in_finish
      doomed
      (record {
        currents = refl;
        kinds = λ i. refl;
        lists = refl;
        sleepers = λ s. refl;
        deaths = refl;
      })
      refl (λ e. cc) (ends w r) e

pub change_thread-at :
    (k : Kernel) (i : ℕ) (f : Thread → Thread) {k' : Kernel}
    → change_thread k i f ≡ some k'
    → (t : Thread) × (k'.threads i ≡ some (f t))
change_thread-at k i f e =
    let (t, found, put) = change_thread-eq k i f e in
    (t, ap (λ (k : Kernel). k.threads i) (sym put) ∙ rw ==_self refl)

kind_at-runs :
    (st : ThreadStatus) (pt : Point) (old : IntStatus)
    → kind_at st pt ≡ runs
    → kind_at st (in_yield old) ≡ runs
unfolding kind_at
kind_at-runs just_created in_code old e = cc
kind_at-runs st pt old e = ground arith

module _ {c : ℕ} {p : ℕ → Kind} {l : List ℕ} {q : ℕ → List ℕ} {d : Option ℕ} where
  pub give_way-Sees :
      (k : Kernel) (old : IntStatus) (i : ℕ) {k' : Kernel}
      → Sees k c p l q d
      → p c ≡ runs
      → p i ≡ waits
      → give_way k old i ≡ some k'
      → Sees k' i (update (update p c waits) i runs) (l ++ (c ∷ [])) q d
  unfolding give_way kind kind_at
  give_way-Sees k old i {k'} s r h e =
      let aside : Thread → Thread = λ t. set_point t (in_yield old) in
      let (k₁, changed, e₁) =
        >>=-eq-some (change_thread k k.current aside)
          (λ k'. ready_to_run k' k.current >>= λ k''. run k'' i) e in
      let (k₂, listed, ran) = >>=-eq-some (ready_to_run k₁ k.current) (λ k''. run k'' i) e₁ in
      let (t, there) = change_thread-at k k.current aside changed in
      let s₁ : Sees k₁ c (update p k.current runs) l q d =
        change_thread-Sees k s k.current aside runs
          (λ t g. kind_at-runs t.status t.point old (g ∙ ap p s.currents ∙ r)) changed in
      let s₂ : Sees k₂ c (update (update p k.current runs) k.current waits) (l ++ (k.current ∷ []))
          q d =
        ready_to_run-Sees k₁ s₁ k.current (λ u g. rw (some-injective _ _ (sym g ∙ there)) refl)
          listed in
      let s₃ : Sees k₂ c (update p c waits) (l ++ (c ∷ [])) q d =
        Sees-again k₂ s₂ (λ j. ground (arith, s.currents)) (ap (λ x. l ++ (x ∷ [])) s.currents)
          (λ j. refl) in
      run-Sees k₂ s₃ i (ground arith) ran

pub yield-Placed :
    (k : Kernel) {k' : Kernel}
    → Placed k
    → kind (k.threads k.current) ≡ runs
    → yield k ≡ some k'
    → Placed k'
unfolding yield
yield-Placed k {k'} w r e = elim (Option-cases (find_next_to_run (set_level k int_off))) [
  | inl none_left ↦ subst Placed (some-injective _ _ (rw (none_left, yield) at e)) w
  | inr (next, found) ↦
      let (r', split, s) =
        find_next_to_run-Sees (set_level k int_off) (same_view (set_level k int_off)) found in
      let gave : give_way next.1 k.level next.0 ≡ some k' = rw (found, yield) at e in
      let here : kind (k.threads next.0) ≡ waits =
        ground (arith, w.listed next.0, ap (has next.0) split) in
      Sees-Placed k' (give_way-Sees next.1 k.level next.0 s r here gave) (
        dispatched (steps_aside w r) next.0 (r' ++ (k.current ∷ []))
          (ap (λ x. x ++ (k.current ∷ [])) split) (λ g. ground arith))
]
