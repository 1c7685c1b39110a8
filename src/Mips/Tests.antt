-- ===== src/Mips/Tests.antt =====
-- Concrete runs of nachos-3.4/code/machine/mipssim.cc.
use n4ch0s.Base.{◌*◌, ◌≡◌, true, false, some, arith, ◌∷◌, refl, [], get_or}
use n4ch0s.Machine.{Machine, update, next_pc_reg, write_reg}
use n4ch0s.Mips.Run.{Step, one_instruction, finish}
use n4ch0s.Mips.Decode.{
  Instruction, op_add, decode, decode_op, decode_extra, op_table, special_table, op_res,
}
use n4ch0s.Mips.Execute.Overflow.{Exact, exec_add-Exact}
use n4ch0s.Mips.Mult.Signed.{signed64, mult_signed}
use n4ch0s.Mips.Mult.Product.{double, mult_unsigned}
use n4ch0s.Mips.Run.Stepped.{Stepped, one_instruction-Stepped}
use n4ch0s.Machine.Tests.{small_machine, page}
use n4ch0s.Base.Int.{signed32, ◌*ℤ◌, ◌+ℤ◌}
use n4ch0s.Mips.Mult.{mult}
use n4ch0s.Mips.Execute.Ending.{rs_of, retire, rt_of, after, sets}
use n4ch0s.Machine.Memory.{read_mem, fetch}
use n4ch0s.Machine.Translate.{translate, lookup_entry, touched, by_table, through}
use n4ch0s.Mips.Execute.Arith.{exec_addi, exec_add, exec_or}
use n4ch0s.Mips.Execute.{execute}
use n4ch0s.Mips.Decode.Fields.{encode_r, decode-encode_r}
use n4ch0s.Mips.Execute.Logic.{exec_or_copies}

-- The first word of the memory is ADDI r1, r0, 5; the counters are at 0 and 4.
abbrev start_machine : Machine
start_machine = record small_machine {
  registers = update (λ i. 0) next_pc_reg 4;
  main_memory = update (update (update (λ a. 0) 1536 5) 1538 1) 1539 0x20;
}

-- What the first instruction leaves: 5 in r1, and the counters at 4 and 8.
abbrev first_step : Step
first_step = finish (
    retire (write_reg (record start_machine { page_table = some (touched page false ∷ []) }) 1 5) 8
      0 0)

abbrev three_regs : Machine
three_regs = record small_machine { registers = update (update (λ i. 0) 1 0x7fff_ffff) 2 1 }

-- An instruction on r1, r2 and r3, with the operand 2.
abbrev on_regs : Instruction
on_regs = record { op_code = op_add; rs = 1; rt = 2; rd = 3; extra = 2 }

exec_add-Exact_example :
    Exact three_regs 3
      (signed32 (rs_of three_regs on_regs) +ℤ signed32 (rt_of three_regs on_regs))
      (exec_add three_regs on_regs)
unfolding update
exec_add-Exact_example = exec_add-Exact three_regs on_regs (omega arith) (omega arith)

mult_signed_example :
    signed64 (double (mult 0xffff_fffd 7 true).0 (mult 0xffff_fffd 7 true).1)
    ≡ signed32 0xffff_fffd *ℤ signed32 7
mult_signed_example = mult_signed 0xffff_fffd 7 (omega arith) (omega arith)

mult_unsigned_example :
    double (mult 0xffff_fffd 7 false).0 (mult 0xffff_fffd 7 false).1 ≡ 0xffff_fffd * 7
mult_unsigned_example = mult_unsigned 0xffff_fffd 7 (omega arith) (omega arith)

runs : one_instruction start_machine ≡ some first_step
unfolding one_instruction read_mem translate lookup_entry by_table through fetch after decode
    decode_op decode_extra op_table execute exec_addi update
runs = refl

one_instruction-Stepped_example : Stepped start_machine first_step
unfolding update
one_instruction-Stepped_example =
    one_instruction-Stepped start_machine first_step (omega arith) runs

-- ADD r3, r1, r2.
decode-encode_r_example :
    decode (encode_r 1 2 3 0 32)
    ≡ record { op_code = get_or special_table 32 op_res; rs = 1; rt = 2; rd = 3; extra = 0 }
decode-encode_r_example =
    decode-encode_r 1 2 3 0 32 (omega arith) (omega arith) (omega arith) (omega arith) (omega arith)

exec_or_copies_example : exec_or three_regs on_regs ≡ sets three_regs 3 (rs_of three_regs on_regs)
exec_or_copies_example = exec_or_copies three_regs on_regs
