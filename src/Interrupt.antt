-- ===== src/Interrupt.antt =====
-- The interrupt simulation of nachos-3.4/code/machine/interrupt.cc with the clock of stats.h.
pub mod Due
mod Tests
use n4ch0s.Base.{
  ℕ, ◌+◌, ◌-◌, ◌&&◌, ◌||◌, ◌>>=◌, ◌>>◌, if◌then◌else◌, zero, suc, Bool, true, false, not, Option,
  none, some, List, [], assert, ltb,
}
use n4ch0s.SortedList.{Element, sorted_remove, sorted_insert, is_empty}

pub data IntStatus : Type 0 where
  int_off int_on : IntStatus

pub data MachineStatus : Type 0 where
  idle_mode system_mode user_mode : MachineStatus

pub data IntType : Type 0 where
  timer_int disk_int console_write_int console_read_int network_send_int network_recv_int : IntType

-- A handler is a function pointer: the number that stands for it. `kind` is the source's `type`.
pub record PendingInterrupt : Type 0 where
  pub handler : ℕ
  pub arg : ℕ
  pub when : ℕ
  pub kind : IntType

-- The constructor.
abbrev pub pending_interrupt : (handler arg when : ℕ) → IntType → PendingInterrupt
pending_interrupt handler arg when kind = record {
  handler = handler;
  arg = arg;
  when = when;
  kind = kind;
}

-- `Interrupt` and the counters of `Statistics` that it moves.
pub record Interrupt : Type 0 where
  pub level : IntStatus
  pub pending : List (Element PendingInterrupt)
  pub in_handler : Bool
  pub yield_on_return : Bool
  pub status : MachineStatus
  pub total_ticks : ℕ
  pub idle_ticks : ℕ
  pub system_ticks : ℕ
  pub user_ticks : ℕ

unfoldable pub init : Interrupt
init = record {
  level = int_off;
  pending = [];
  in_handler = false;
  yield_on_return = false;
  status = system_mode;
  total_ticks = 0;
  idle_ticks = 0;
  system_ticks = 0;
  user_ticks = 0;
}

abbrev pub is_off : IntStatus → Bool
is_off int_off = true
is_off int_on = false

abbrev pub is_idle : MachineStatus → Bool
is_idle idle_mode = true
is_idle mode = false

abbrev pub is_system : MachineStatus → Bool
is_system system_mode = true
is_system mode = false

abbrev pub is_timer : IntType → Bool
is_timer timer_int = true
is_timer kind = false

abbrev pub change_level : Interrupt → IntStatus → Interrupt
change_level s now = record s { level = now }

-- `Schedule`, with its ASSERT.
unfoldable pub schedule : Interrupt → (handler arg from_now : ℕ) → IntType → Option Interrupt
schedule s handler arg from_now kind =
    let when = s.total_ticks + from_now in
    let to_occur = pending_interrupt handler arg when kind in
    assert (ltb 0 from_now) >> some (record s { pending = sorted_insert s.pending to_occur when })

-- `YieldOnReturn`, with its ASSERT.
unfoldable pub request_yield : Interrupt → Option Interrupt
request_yield s = assert s.in_handler >> some (record s { yield_on_return = true })

-- The clock's part of `OneTick`.
unfoldable pub advance : Interrupt → Interrupt
advance s =
    if is_system s.status
    then record s { total_ticks = s.total_ticks + 10; system_ticks = s.system_ticks + 10 }
    else record s { total_ticks = s.total_ticks + 1; user_ticks = s.user_ticks + 1 }

-- The handlers are code of the devices and of the kernel: `call` runs one, given its number and its
-- argument; `yield` is `currentThread->Yield()`.
module _ (call : ℕ → ℕ → Interrupt → Option Interrupt) (yield : Interrupt → Option Interrupt) where
  -- The end of `CheckIfDue`, from the call on. `DelayedLoad(0, 0)` before it changes registers of the machine,
  -- which are not in this record, and is left out.
  unfoldable pub fire : Interrupt → PendingInterrupt → Option (Bool × Interrupt)
  fire s to_occur =
      call to_occur.handler to_occur.arg (record s { in_handler = true; status = system_mode })
      >>= λ s'. some (true, record s' { status = s.status; in_handler = false })

  -- The interrupt `e` is off the list, which is `s.pending` now.
  unfoldable pub check_removed :
      Interrupt → Bool → Element PendingInterrupt → Option (Bool × Interrupt)
  check_removed s advance_clock e =
      let late = ltb s.total_ticks e.key in
      let put_back = λ (t : Interrupt).
        some (false, record t { pending = sorted_insert t.pending e.item e.key }) in
      let moved = record s {
        idle_ticks = s.idle_ticks + (e.key - s.total_ticks);
        total_ticks = e.key;
      } in
      let s' = if advance_clock && late then moved else s in
      if not advance_clock && late
      then put_back s
      else if is_idle s.status && is_timer e.item.kind && is_empty s.pending
      then put_back s'
      else fire s' e.item

  -- `CheckIfDue`.
  unfoldable pub check_if_due : Interrupt → Bool → Option (Bool × Interrupt)
  check_if_due s advance_clock = assert (is_off s.level) >> elim (sorted_remove s.pending) [
    | none ↦ some (false, s)
    | some (e, rest) ↦ check_removed (record s { pending = rest }) advance_clock e
  ]

  -- `while (CheckIfDue(FALSE)) ;`, on fuel.
  unfoldable pub drain : ℕ → Interrupt → Option Interrupt
  drain zero s = none
  drain (suc fuel) s = check_if_due s false >>= λ (fired, s').
      let rest = drain fuel s' in if fired then rest else some s'

  -- `OneTick`; the fuel is that of its loop.
  unfoldable pub one_tick : ℕ → Interrupt → Option Interrupt
  one_tick fuel s = drain fuel (change_level (advance s) int_off) >>= λ s'.
      let on = change_level s' int_on in
      let yields = yield (record on { yield_on_return = false; status = system_mode }) >>= λ t.
      some (record t { status = s.status }) in
      if on.yield_on_return then yields else some on

  -- `SetLevel`, with its ASSERT: the old level and the new state.
  unfoldable pub set_level : ℕ → Interrupt → IntStatus → Option (IntStatus × Interrupt)
  set_level fuel s now =
      assert (is_off now || not s.in_handler)
      >> (let s' = change_level s now in
          let ticked = one_tick fuel s' >>= λ t. some (s.level, t) in
          if not (is_off now) && is_off s.level then ticked else some (s.level, s'))

  abbrev pub enable : ℕ → Interrupt → Option Interrupt
  enable fuel s = set_level fuel s int_on >>= λ (old, s'). some s'

  -- `Idle`: `none` in the second place is the call of `Halt`.
  unfoldable pub idle : ℕ → Interrupt → Option (Option Interrupt)
  idle fuel s = check_if_due (record s { status = idle_mode }) true >>= λ (fired, s').
      let woken = drain fuel s' >>= λ t.
      some (some (record t { yield_on_return = false; status = system_mode })) in
      if fired then woken else some none
