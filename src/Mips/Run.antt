-- ===== src/Mips/Run.antt =====
-- `Machine::OneInstruction` of nachos-3.4/code/machine/mipssim.cc as a whole.
pub mod Stepped
use n4ch0s.Base.{◌>>=◌, Option, some}
use n4ch0s.Machine.{
  Machine, ExceptionType, delayed_load, pc_reg, write_reg, prev_pc_reg, next_pc_reg,
}
use n4ch0s.Mips.Execute.Ending.{Outcome, stop, after, retire}
use n4ch0s.Machine.Memory.{read_mem}
use n4ch0s.Mips.Execute.{execute}
use n4ch0s.Mips.Decode.{decode}

-- One instruction is done, or an exception is raised on the way.
pub data Step : Type 0 where
  advanced : Machine → Step
  trapped : ExceptionType → Machine → Step

-- The code after the switch.
unfoldable pub finish : Outcome → Step
finish (stop e m) = trapped e m
finish (retire m pc_after next_load_reg next_load_value) =
    let loaded = delayed_load m next_load_reg next_load_value in
    let previous = write_reg loaded prev_pc_reg (loaded.registers pc_reg) in
    let current = write_reg previous pc_reg (previous.registers next_pc_reg) in
    advanced (write_reg current next_pc_reg pc_after)

unfoldable pub one_instruction : Machine → Option Step
one_instruction m =
    after (read_mem m (m.registers pc_reg) 4)
      (λ raw m'. execute (decode raw).op_code m' (decode raw))
    >>= λ o. some (finish o)
