-- ===== src/Threads/Turns/Slice.antt =====
-- One turn: the thread that runs yields, and the first of the ready list goes on.
use n4ch0s.Base.{
  ℕ, ◌≡◌, Option, none, some, true, ◌>>=◌, refl, ap, ◌∙◌, ◌==◌, assert-pass, ==_self, ==_ne, ◌≢◌,
  ◌>>◌, inl, inr, Bool-cases, not, assert,
}
use n4ch0s.Threads.{
  Kernel, Thread, Point, update, fenced, put_thread, ready, running, check_overflow,
  save_user_state, in_yield, in_finish, at_root, in_p, in_code, AddrSpace, Cpu,
}
use n4ch0s.Threads.Turns.{AllWilling, Willing, at_turn}
use n4ch0s.Threads.Scheduler.{
  change_thread, set_status, ready_to_run, saved, run, set_point, give_way, destroy, after_switch,
  restored, set_level,
}
use n4ch0s.SortedList.{append}
use mathlib.Core.Path.{subst}
use n4ch0s.Threads.Places.{kind_at, waits, kind}
use mathlib.Core.Option.{some-injective}
use n4ch0s.Threads.Semaphores.{resume_at, resume}
use n4ch0s.Interrupt.{IntStatus, int_on}

pub update_self : (f : ℕ → Option Thread) (i : ℕ) (x : Option Thread) → update f i x i ≡ x
update_self f i x = rw ==_self refl

update_ne : (f : ℕ → Option Thread) (i j : ℕ) (x : Option Thread) → i ≢ j → update f i x j ≡ f j
update_ne f i j x h = rw (==_ne i j h) refl

pub AllWilling-update :
    (f : ℕ → Option Thread) (i : ℕ) (x : Thread)
    → AllWilling f
    → Willing x
    → AllWilling (update f i (some x))
AllWilling-update f i x w h j t e = elim (Bool-cases (i == j)) [
  | inl q ↦ subst Willing (some-injective _ _ (rw q at e)) h
  | inr q ↦ w j t (rw q at e)
]

change_thread-some :
    (k : Kernel) (i : ℕ) (f : Thread → Thread) (t : Thread)
    → k.threads i ≡ some t
    → change_thread k i f ≡ some (put_thread k i (some (f t)))
change_thread-some k i f t h = ap (λ o. o >>= λ t. some (put_thread k i (some (f t)))) h

abbrev readied : Kernel → ℕ → Thread → Kernel
readied k i t = record (put_thread k i (some (set_status t ready))) {
  ready_list = append k.ready_list i;
}

ready_to_run-some :
    (k : Kernel) (i : ℕ) (t : Thread)
    → k.threads i ≡ some t
    → ready_to_run k i ≡ some (readied k i t)
unfolding ready_to_run
ready_to_run-some k i t h =
    ap (λ (o : Option Kernel). o >>= λ k'. some (record k' { ready_list = append k.ready_list i }))
      (change_thread-some k i (λ t. set_status t ready) t h)

abbrev left : Kernel → Thread → Kernel
left k old = put_thread k k.current (some (saved old.space k.cpu old))

abbrev switched : Kernel → ℕ → Thread → Thread → Kernel
switched k i old next = record (put_thread (left k old) i (some (set_status next running))) {
  current = i;
}

run-some :
    (k : Kernel) (i : ℕ) (old next : Thread)
    → k.threads k.current ≡ some old
    → fenced old.stack ≡ true
    → (left k old).threads i ≡ some next
    → run k i ≡ some (switched k i old next)
unfolding run check_overflow
run-some k i old next h f g =
    ap
      (λ o. o >>= λ old.
        check_overflow old >> change_thread (left k old) i (λ t. set_status t running) >>= λ k'.
        some (record k' { current = i }))
      h
    ∙ ap (λ (o : Option Kernel). o >>= λ k'. some (record k' { current = i }))
        (assert-pass (fenced old.stack) (change_thread (left k old) i (λ t. set_status t running)) f
          ∙ change_thread-some (left k old) i (λ t. set_status t running) next g)

saved-Willing : (o : Option AddrSpace) (c : Cpu) (t : Thread) → Willing t → Willing (saved o c t)
unfolding saved save_user_state kind
saved-Willing none c t w = w
saved-Willing (some a) c t w = w

not_waiting : (pt : Point) → kind_at running pt ≢ waits
unfolding kind_at
not_waiting in_finish e = cc
not_waiting pt e = cc

running-Willing : (t : Thread) → fenced t.stack ≡ true → Willing (set_status t running)
unfolding kind
running-Willing t f = (f, λ e. absurd (not_waiting t.point e))

destroy-nobody : (k : Kernel) → k.to_be_destroyed ≡ none → destroy k ≡ some k
unfolding destroy
destroy-nobody k h =
    ap
      (λ (d : Option ℕ). elim d [
        | none ↦ some k
        | some i ↦
            assert (not (i == k.current))
            >> some (record (put_thread k i none) { to_be_destroyed = none })
      ])
      h

-- The thread `c` with the state `t` gives way to the thread `h` with the state `u`.
module _ (k : Kernel) (old : IntStatus) (h : ℕ) (t u : Thread) (here : k.threads k.current ≡ some t)
    (there : k.threads h ≡ some u) (apart : k.current ≢ h) (intact : fenced t.stack ≡ true)
    (all : AllWilling k.threads) (fresh : Willing u) where
  abbrev pub aside : Thread
  aside = set_point t (in_yield old)

  abbrev after_ready : Kernel
  after_ready = readied (put_thread k k.current (some aside)) k.current aside

  abbrev pub given : Kernel
  given = switched after_ready h (set_status aside ready) u

  pub give_way-some : give_way k old h ≡ some given
  unfolding give_way
  give_way-some =
      let k₁ : Kernel = put_thread k k.current (some aside) in
      ap (λ (o : Option Kernel). o >>= λ k'. ready_to_run k' k.current >>= λ k''. run k'' h)
        (change_thread-some k k.current (λ t. set_point t (in_yield old)) t here)
      ∙ ap (λ (o : Option Kernel). o >>= λ k''. run k'' h)
          (ready_to_run-some k₁ k.current aside (update_self k.threads k.current (some aside)))
      ∙ run-some after_ready h (set_status aside ready) u
          (update_self k₁.threads k.current (some (set_status aside ready))) intact
          (update_ne (update k₁.threads k.current (some (set_status aside ready))) k.current h
              (some (saved t.space k.cpu (set_status aside ready))) apart
            ∙ update_ne k₁.threads k.current h (some (set_status aside ready)) apart
            ∙ update_ne k.threads k.current h (some aside) apart
            ∙ there)

  pub given-willing : AllWilling given.threads
  given-willing =
      let th₁ : ℕ → Option Thread = update k.threads k.current (some aside) in
      let th₂ : ℕ → Option Thread = update th₁ k.current (some (set_status aside ready)) in
      let th₃ : ℕ → Option Thread =
        update th₂ k.current (some (saved t.space k.cpu (set_status aside ready))) in
      AllWilling-update th₃ h (set_status u running)
        (AllWilling-update th₂ k.current (saved t.space k.cpu (set_status aside ready))
          (AllWilling-update th₁ k.current (set_status aside ready)
            (AllWilling-update k.threads k.current aside all (intact, λ e. refl))
            (intact, λ e. refl))
          (saved-Willing t.space k.cpu (set_status aside ready) (intact, λ e. refl)))
        (running-Willing u fresh.0)

  pub given-next : given.threads h ≡ some (set_status u running)
  given-next =
      update_self
        (update after_ready.threads k.current (some (saved t.space k.cpu (set_status aside ready))))
        h (some (set_status u running))

-- What goes on from a turn is the kernel that was switched to, but for the machine and the level.
pub record Same (k k' : Kernel) : Type 0 where
  pub currents : k'.current ≡ k.current
  pub threads : (i : ℕ) → k'.threads i ≡ k.threads i
  pub lists : k'.ready_list ≡ k.ready_list
  pub nobody : k'.to_be_destroyed ≡ none

after_switch-some :
    (k : Kernel) (t : Thread)
    → k.to_be_destroyed ≡ none
    → k.threads k.current ≡ some t
    → after_switch k ≡ some (record k { cpu = restored t.space t k.cpu })
unfolding after_switch destroy
after_switch-some k t h e =
    ap
      (λ (o : Option Kernel). o >>= λ k'.
        k'.threads k'.current >>= λ t. some (record k' { cpu = restored t.space t k'.cpu }))
      (destroy-nobody k h)
    ∙ ap (λ o. o >>= λ t. some (record k { cpu = restored t.space t k.cpu })) e

resume_at-some :
    (k : Kernel) (pt : Point) (t : Thread)
    → at_turn pt ≡ true
    → k.to_be_destroyed ≡ none
    → k.threads k.current ≡ some t
    → (k' : Kernel) × (resume_at k pt ≡ some k') × Same k k'
unfolding resume_at
resume_at-some k in_code t a h e = cc
resume_at-some k (at_root func arg) t a h e = (
  set_level k int_on,
  refl,
  record { currents = refl; threads = λ i. refl; lists = refl; nobody = h },
)
resume_at-some k (in_yield old) t a h e =
    let k₁ : Kernel = record k { cpu = restored t.space t k.cpu } in
    (
      set_level k₁ old,
      ap (λ (o : Option Kernel). o >>= λ k'. some (set_level k' old)) (after_switch-some k t h e),
      record { currents = refl; threads = λ i. refl; lists = refl; nobody = h },
    )
resume_at-some k (in_p s old) t a h e = cc
resume_at-some k in_finish t a h e = cc

pub resume-some :
    (k : Kernel) (t : Thread)
    → at_turn t.point ≡ true
    → k.to_be_destroyed ≡ none
    → k.threads k.current ≡ some t
    → (k' : Kernel) × (resume k ≡ some k')
      × Same (put_thread k k.current (some (set_point t in_code))) k'
unfolding resume
resume-some k t a h e =
    let k₁ : Kernel = put_thread k k.current (some (set_point t in_code)) in
    let (k', went, same) =
      resume_at-some k₁ t.point (set_point t in_code) a h
        (update_self k.threads k.current (some (set_point t in_code))) in
    (
      k',
      ap
            (λ o. o >>= λ t.
              change_thread k k.current (λ t. set_point t in_code) >>= λ k'. resume_at k' t.point)
            e
          ∙ ap (λ (o : Option Kernel). o >>= λ k'. resume_at k' t.point)
              (change_thread-some k k.current (λ t. set_point t in_code) t e)
          ∙ went,
      same,
    )
