-- ===== src/Devices/Timer/Ticking.antt =====
-- The interrupts of the timer of nachos-3.4/code/machine/timer.cc.
use n4ch0s.Base.{ℕ, ◌+◌, ◌%◌, ◌≤◌, ◌≡◌, some, arith, Bool-cases, assert-pass, inl, inr}
use n4ch0s.Interrupt.{Interrupt, pending_interrupt, timer_int, schedule}
use n4ch0s.SortedList.{sorted_insert}
use n4ch0s.Devices.Timer.{Timer, time_of_next_interrupt, timer_expired}

pub random_delay : (random : ℕ) → (1 ≤ 1 + random % 200) × (1 + random % 200 ≤ 200)
random_delay random = (omega arith, omega arith)

-- The next interrupt comes after 1 to 200 ticks, and after 100 where the delay is not random.
pub delay_bounds :
    (t : Timer) (random : ℕ)
    → (1 ≤ time_of_next_interrupt t random) × (time_of_next_interrupt t random ≤ 200)
unfolding time_of_next_interrupt
delay_bounds t random = elim (Bool-cases t.randomize) [
  | inl e ↦ rw e (random_delay random)
  | inr e ↦ rw e (omega arith, omega arith)
]

-- Each interrupt of the timer schedules the next one, 1 to 200 ticks ahead, and changes nothing else: the timer does
-- not stop.
pub timer_expired_again :
    (t : Timer) (s : Interrupt) (random : ℕ)
    → (delay : ℕ) × (1 ≤ delay)
      × (delay ≤ 200)
      × (timer_expired t s random
          ≡ some (record s {
            pending =
                sorted_insert s.pending
                  (pending_interrupt t.expire t.this (s.total_ticks + delay) timer_int)
                  (s.total_ticks + delay);
          }))
unfolding timer_expired schedule
timer_expired_again t s random =
    let (low, high) = delay_bounds t random in
    (time_of_next_interrupt t random, low, high, assert-pass _ _ (ground (arith, low)))
