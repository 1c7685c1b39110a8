-- ===== src/Devices/Timer.antt =====
-- The timer of nachos-3.4/code/machine/timer.cc; a random number is a parameter.
pub mod Ticking
use n4ch0s.Base.{ℕ, ◌+◌, ◌*◌, ◌%◌, if◌then◌else◌, Bool, Option, ◌>>=◌, some}
use n4ch0s.Interrupt.{Interrupt, schedule, timer_int}

abbrev pub timer_ticks : ℕ
timer_ticks = 100

-- `expire` is the number of `TimerHandler`, which is called with `this`; `handler` and `arg` are the kernel's.
pub record Timer : Type 0 where
  pub randomize : Bool
  pub handler : ℕ
  pub arg : ℕ
  pub expire : ℕ
  pub this : ℕ

unfoldable pub time_of_next_interrupt : Timer → (random : ℕ) → ℕ
time_of_next_interrupt t random =
    if t.randomize then 1 + random % (timer_ticks * 2) else timer_ticks

-- `TimerExpired` before it calls the handler.
unfoldable pub timer_expired : Timer → Interrupt → (random : ℕ) → Option Interrupt
timer_expired t s random = schedule s t.expire t.this (time_of_next_interrupt t random) timer_int

-- The constructor.
unfoldable pub init :
    (handler arg expire this : ℕ) → Bool → Interrupt → (random : ℕ) → Option (Timer × Interrupt)
init handler arg expire this do_random s random =
    let t : Timer = record {
      randomize = do_random;
      handler = handler;
      arg = arg;
      expire = expire;
      this = this;
    } in
    schedule s t.expire t.this (time_of_next_interrupt t random) timer_int >>= λ s'. some (t, s')
