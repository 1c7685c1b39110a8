-- ===== src/Mips/Execute/Ending.antt =====
-- How a branch of the switch in `OneInstruction` of nachos-3.4/code/machine/mipssim.cc ends.
use n4ch0s.Base.{ℕ, Option, none, some}
use n4ch0s.Machine.{Machine, ExceptionType, write_reg, raise_exception, next_pc_reg}
use n4ch0s.Machine.Memory.{Access, trap, done}
use n4ch0s.Mips.Word.{add32}
use n4ch0s.Mips.Decode.{Instruction}

-- `retire` is the `break`, with `pcAfter`, `nextLoadReg` and `nextLoadValue`; `stop` the `return`
-- after an exception, with the state on which the kernel's handler runs. An outcome in `Option` is
-- `none` where an ASSERT fails.
pub data Outcome : Type 0 where
  retire : Machine → (pc_after next_load_reg next_load_value : ℕ) → Outcome
  stop : ExceptionType → Machine → Outcome

-- `int pcAfter = registers[NextPCReg] + 4`.
abbrev pub next_pc : Machine → ℕ
next_pc m = add32 (m.registers next_pc_reg) 4

-- A branch that leaves `pcAfter` and the load in progress as they are.
abbrev pub retires : Machine → Option Outcome
retires m = some (retire m (next_pc m) 0 0)

-- `registers[num] = value; break`.
abbrev pub sets : Machine → ℕ → ℕ → Option Outcome
sets m num value = some (retire (write_reg m num value) (next_pc m) 0 0)

-- `RaiseException(which, 0); return`.
abbrev pub raises_exception : ExceptionType → Machine → Option Outcome
raises_exception which m = some (stop which (raise_exception m 0))

-- `if (!machine->ReadMem(…)) return;`, and the rest.
unfoldable pub after :
    {A : Type 0} → Option (Access A) → (A → Machine → Option Outcome) → Option Outcome
after none k = none
after (some (trap e m)) k = some (stop e m)
after (some (done a m)) k = k a m

-- `registers[instr->rs]` and `registers[instr->rt]`.
abbrev pub rs_of : Machine → Instruction → ℕ
rs_of m i = m.registers i.rs

abbrev pub rt_of : Machine → Instruction → ℕ
rt_of m i = m.registers i.rt

-- `registers[instr->rs] + instr->extra`.
abbrev pub address : Machine → Instruction → ℕ
address m i = add32 (rs_of m i) i.extra
