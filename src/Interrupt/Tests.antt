-- ===== src/Interrupt/Tests.antt =====
-- Concrete states of nachos-3.4/code/machine/interrupt.cc, list.cc and disk.cc.
use n4ch0s.Base.{ℕ, ◌<◌, ◌≡◌, ◌∷◌, refl, false, some, [], arith}
use n4ch0s.Interrupt.{
  PendingInterrupt, Interrupt, pending_interrupt, int_off, drain, timer_int, system_mode,
}
use n4ch0s.SortedList.Order.{Sorted, sorted_first, first_above, none_below, sorted_empty}
use n4ch0s.Interrupt.Due.{count_due, due, reschedules, Drained, drain-Drained, reschedules-Behaves}
use n4ch0s.SortedList.{element}
use n4ch0s.Disk.{Disk, read_request, compute_latency}
use n4ch0s.Disk.Latency.{Requested, read_request-Requested}

abbrev timer_at : ℕ → PendingInterrupt
timer_at when = pending_interrupt 1 0 when timer_int

-- Two interrupts are due at the time 30, and one is not.
abbrev three_pending : Interrupt
three_pending = record {
  level = int_off;
  pending = element (timer_at 10) 10 ∷ element (timer_at 30) 30 ∷ element (timer_at 50) 50 ∷ [];
  in_handler = false;
  yield_on_return = false;
  status = system_mode;
  total_ticks = 30;
  idle_ticks = 0;
  system_ticks = 30;
  user_ticks = 0;
}

three_pending-Sorted : Sorted three_pending.pending
three_pending-Sorted =
    sorted_first (first_above (omega arith) (first_above (omega arith) none_below))
      (sorted_first (first_above (omega arith) none_below) (sorted_first none_below sorted_empty))

two_due : due three_pending < 3
unfolding count_due
two_due = omega arith

drain-Drained_example :
    (s' : Interrupt) × (drain (reschedules 99 timer_int) (λ s. some s) 3 three_pending ≡ some s')
    × Drained three_pending s'
drain-Drained_example =
    drain-Drained (reschedules 99 timer_int) (λ s. some s) (reschedules-Behaves 99 timer_int) 3
      three_pending (record { off = refl; ordered = three_pending-Sorted }) refl two_due

abbrev idle_disk : Disk
idle_disk = record {
  sectors = λ i. i ∷ [];
  handler = 2;
  handler_arg = 0;
  active = false;
  last_sector = 40;
  buffer_init = 0;
  num_disk_reads = 0;
  num_disk_writes = 0;
}

read_request-Requested_example :
    (d' : Disk) × (s' : Interrupt) × (read_request idle_disk three_pending 9
      ≡ some (9 ∷ [], d', s'))
    × Requested idle_disk d' three_pending s' 9 (compute_latency idle_disk 30 9 false)
read_request-Requested_example = read_request-Requested idle_disk three_pending 9 refl (omega arith)
