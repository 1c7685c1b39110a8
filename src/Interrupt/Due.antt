-- ===== src/Interrupt/Due.antt =====
-- The loop of `OneTick` in nachos-3.4/code/machine/interrupt.cc fires what is due, and ends.
use n4ch0s.Base.{
  ℕ, ◌<◌, ◌≡◌, ◌∷◌, if◌then◌else◌, zero, suc, refl, false, Option, some, List, [], arith, leb, ◌&&◌,
  Bool, true, inl, inr, ◌>>=◌, ap, none, Bool-cases, ltb, assert-pass, ◌∙◌, ◌+◌, lt→ltb,
}
use n4ch0s.SortedList.{Element, element, insert_after}
use n4ch0s.Interrupt.{
  Interrupt, int_off, drain, sorted_insert, check_if_due, check_removed, fire, is_idle,
  PendingInterrupt, system_mode, is_off, IntType, schedule, pending_interrupt,
}
use n4ch0s.SortedList.{sorted_remove}
use n4ch0s.SortedList.Order.{
  AtLeast, first_above, Sorted, above, as_insert_after, AtLeast-insert, AtLeast-le,
  sorted_insert-Sorted, not_above, sorted_first,
}
use mathlib.Core.Path.{subst, sym}

-- How many of the keys are at most `n`.
unfoldable pub count_due : {A : Type 0} → ℕ → List (Element A) → ℕ
count_due n [] = 0
count_due n (e ∷ es) = let rest = count_due n es in if leb e.key n then suc rest else rest

-- The interrupts whose time has come.
abbrev pub due : Interrupt → ℕ
due s = count_due s.total_ticks s.pending

count_due-none :
    {A : Type 0} (n : ℕ) (es : List (Element A)) → AtLeast (suc n) es → count_due n es ≡ 0
unfolding count_due
count_due-none n [] h = refl
count_due-none n (e ∷ es) (first_above p r) = rw (above n e.key p) (count_due-none n es r)

count_due-later :
    {A : Type 0} (n : ℕ) (es : List (Element A)) (x : Element A)
    → n < x.key
    → count_due n (insert_after es x) ≡ count_due n es
unfolding count_due insert_after
count_due-later n [] x h = rw (above n x.key h) refl
count_due-later n (e ∷ es) x h = elim (Bool-cases (ltb x.key e.key)) [
  | inl lt ↦ rw (lt, above n x.key h) refl
  | inr ge ↦ rw ge (rw (count_due-later n es x h) refl)
]

-- Interrupts are off and the pending ones are in the order of their times.
pub record Ready (s : Interrupt) : Type 0 where
  pub off : s.level ≡ int_off
  pub ordered : Sorted s.pending

-- What a handler may do, for the loop: it returns, does not turn interrupts on or move the clock, and
-- every interrupt that it schedules is for a later time.
abbrev pub Behaves : (ℕ → ℕ → Interrupt → Option Interrupt) → Type 0
Behaves call =
    (handler arg : ℕ) (s : Interrupt)
    → Ready s
    → (s' : Interrupt) × (call handler arg s ≡ some s')
      × Ready s'
      × (due s' ≡ due s)
      × (s'.total_ticks ≡ s.total_ticks)

-- A handler that schedules the device again, as those of the timer, the console and the network do.
unfoldable pub reschedules : ℕ → IntType → ℕ → ℕ → Interrupt → Option Interrupt
reschedules delay kind handler arg s = schedule s handler arg (suc delay) kind

pub reschedules-Behaves : (delay : ℕ) (kind : IntType) → Behaves (reschedules delay kind)
unfolding reschedules schedule
reschedules-Behaves delay kind handler arg s r =
    let when = s.total_ticks + suc delay in
    let p = pending_interrupt handler arg when kind in
    (
      record s { pending = sorted_insert s.pending p when },
      assert-pass _ _ (lt→ltb 0 (suc delay) (omega arith)),
      record { off = r.off; ordered = sorted_insert-Sorted s.pending p when r.ordered },
      rw (as_insert_after s.pending p when)
          (count_due-later s.total_ticks s.pending (element p when) (omega arith)),
      refl,
    )

-- The loop has ended with nothing due, at the time at which it began.
pub record Drained (s s' : Interrupt) : Type 0 where
  pub ready : Ready s'
  pub nothing_due : due s' ≡ 0
  pub same_time : s'.total_ticks ≡ s.total_ticks
  pub same_status : s'.status ≡ s.status

put_back-due :
    {A : Type 0} (n : ℕ) (e : Element A) (es : List (Element A))
    → AtLeast e.key es
    → n < e.key
    → count_due n (sorted_insert es e.item e.key) ≡ 0
put_back-due n e es a h = count_due-none n (sorted_insert es e.item e.key) (
    rw (as_insert_after es e.item e.key)
      (AtLeast-insert es (element e.item e.key) h (AtLeast-le (omega (arith, h)) a)))

-- What `CheckIfDue(FALSE)` leaves of a state with `n` interrupts due: nothing was due, or the state
-- after a handler.
data Checked (s : Interrupt) (n : ℕ) : Option (Bool × Interrupt) → Type 0 where
  quiet : (s' : Interrupt) → Drained s s' → Checked s n (some (false, s'))
  fired :
      (s' : Interrupt)
      → Ready s'
      → suc (due s') ≡ n
      → s'.total_ticks ≡ s.total_ticks
      → s'.status ≡ s.status
      → Checked s n (some (true, s'))

Checked-pending :
    (s : Interrupt) (p : List (Element PendingInterrupt)) {n : ℕ} {o : Option (Bool × Interrupt)}
    → Checked (record s { pending = p }) n o
    → Checked s n o
Checked-pending s p (quiet s' d) = quiet s' (record {
  ready = d.ready;
  nothing_due = d.nothing_due;
  same_time = d.same_time;
  same_status = d.same_status;
})
Checked-pending s p (fired s' r d t u) = fired s' r d t u

unless : {A : Type 0} (b c d : Bool) (x y : A) → b ≡ false → (if b && c && d then x else y) ≡ y
unless false c d x y h = refl
unless true c d x y h = cc

module _ (call : ℕ → ℕ → Interrupt → Option Interrupt) (yield : Interrupt → Option Interrupt)
    (b : Behaves call) where
  fire-Checked :
      (s : Interrupt) (p : PendingInterrupt)
      → Ready s
      → Checked s (suc (due s)) (fire call yield s p)
  unfolding fire
  fire-Checked s p r =
      let (s', e, r', d, t) =
        b p.handler p.arg (record s { in_handler = true; status = system_mode })
          (record { off = r.off; ordered = r.ordered }) in
      subst (Checked s (suc (due s)))
        (sym (
          ap
            (λ (o : Option Interrupt).
              o >>= λ s'. some (true, record s' { status = s.status; in_handler = false }))
            e))
        (fired (record s' { status = s.status; in_handler = false })
          (record { off = r'.off; ordered = r'.ordered }) (ap suc d) t refl)

  -- The interrupt `e` is off the list.
  check_removed-Checked :
      (s : Interrupt) (e : Element PendingInterrupt)
      → Ready s
      → AtLeast e.key s.pending
      → is_idle s.status ≡ false
      → Checked s (count_due s.total_ticks (e ∷ s.pending)) (check_removed call yield s false e)
  unfolding check_removed fire count_due
  check_removed-Checked s e r a i = elim (Bool-cases (ltb s.total_ticks e.key)) [
    | inl late ↦ rw late (
        quiet (record s { pending = sorted_insert s.pending e.item e.key })
          (record {
            ready = record {
              off = r.off;
              ordered = sorted_insert-Sorted s.pending e.item e.key r.ordered;
            };
            nothing_due = put_back-due s.total_ticks e s.pending a (ground (arith, late));
            same_time = refl;
            same_status = refl;
          }))
    | inr now ↦
        rw (now, not_above s.total_ticks e.key now)
          (subst (Checked s (suc (due s))) (sym (unless (is_idle s.status) _ _ _ _ i))
            (fire-Checked s e.item r))
  ]

  check_if_due-Checked :
      (s : Interrupt)
      → Ready s
      → is_idle s.status ≡ false
      → Checked s (due s) (check_if_due call yield s false)
  unfolding check_if_due sorted_remove count_due
  check_if_due-Checked s r i =
      subst (Checked s (due s)) (sym (assert-pass _ _ (ap is_off r.off)))
        (go s.pending r.ordered refl)
    where
      go :
          (p : List (Element PendingInterrupt))
          → Sorted p
          → s.pending ≡ p
          → Checked s (due s) (elim (sorted_remove p) [
            | none ↦ some (false, s)
            | some (e, rest) ↦ check_removed call yield (record s { pending = rest }) false e
          ])
      go [] o h = quiet s (record {
        ready = r;
        nothing_due = ap (count_due s.total_ticks) h;
        same_time = refl;
        same_status = refl;
      })
      go (e ∷ rest) (sorted_first a o) h =
          subst (λ n. Checked s n (check_removed call yield (record s { pending = rest }) false e))
            (sym (ap (count_due s.total_ticks) h))
            (Checked-pending s rest (
              check_removed-Checked (record s { pending = rest }) e
                (record { off = r.off; ordered = o }) a i))

  -- One round of the loop, given the rounds after it.
  round :
      (fuel : ℕ) (s : Interrupt) (o : Option (Bool × Interrupt))
      → is_idle s.status ≡ false
      → due s < suc fuel
      → Checked s (due s) o
      → ((t : Interrupt)
          → Ready t
          → is_idle t.status ≡ false
          → due t < fuel
          → (s' : Interrupt) × (drain call yield fuel t ≡ some s') × Drained t s')
      → (s' : Interrupt) × ((o >>= λ (again, s').
            let rest = drain call yield fuel s' in if again then rest else some s')
          ≡ some s')
        × Drained s s'
  round fuel s _ i h (quiet s' d) ih = (s', refl, d)
  round fuel s _ i h (fired s' r d t u) ih =
      let (s'', e, k) = ih s' r (ap is_idle u ∙ i) (omega (arith, d, h)) in
      (
        s'',
        e,
        record {
          ready = k.ready;
          nothing_due = k.nothing_due;
          same_time = k.same_time ∙ t;
          same_status = k.same_status ∙ u;
        },
      )

  -- For handlers that return, leave interrupts off and the clock alone, and schedule only for later: outside
  -- the idle mode, with interrupts off and the pending list in order, the loop ends as soon as the fuel exceeds
  -- the number of interrupts that are due: nothing is due then, and the time and the mode are what they
  -- were.
  pub drain-Drained :
      (fuel : ℕ) (s : Interrupt)
      → Ready s
      → is_idle s.status ≡ false
      → due s < fuel
      → (s' : Interrupt) × (drain call yield fuel s ≡ some s') × Drained s s'
  unfolding drain
  drain-Drained zero s r i h = absurd (omega arith)
  drain-Drained (suc fuel) s r i h =
      round fuel s (check_if_due call yield s false) i h (check_if_due-Checked s r i)
        (λ t rt it ht. drain-Drained fuel t rt it ht)
