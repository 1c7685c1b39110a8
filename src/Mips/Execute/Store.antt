-- ===== src/Mips/Execute/Store.antt =====
-- The stores of `OneInstruction` in nachos-3.4/code/machine/mipssim.cc.
use n4ch0s.Base.{ℕ, ◌==◌, ◌>>◌, zero, suc, Option, bit_or, bit_and, assert}
use n4ch0s.Machine.{Machine}
use n4ch0s.Mips.Execute.Ending.{Outcome, after, address, rt_of, retires}
use n4ch0s.Mips.Decode.{Instruction}
use n4ch0s.Mips.Word.{sra32, shl32}
use n4ch0s.Machine.Memory.{write_mem, read_mem}

-- `if (!machine->WriteMem(address, size, value)) return; break`.
abbrev pub stores : Machine → (address size value : ℕ) → Option Outcome
stores m address size value = after (write_mem m address size value) λ _ m'. retires m'

abbrev pub exec_sb : Machine → Instruction → Option Outcome
exec_sb m i = stores m (address m i) 1 (rt_of m i)

abbrev pub exec_sh : Machine → Instruction → Option Outcome
exec_sh m i = stores m (address m i) 2 (rt_of m i)

abbrev pub exec_sw : Machine → Instruction → Option Outcome
exec_sw m i = stores m (address m i) 4 (rt_of m i)

-- The switch on `tmp & 0x3`, with the word in the memory and the register.
abbrev pub keep_left : (byte value register : ℕ) → ℕ
keep_left zero value register = register
keep_left (suc zero) value register =
    bit_or (bit_and value 0xff00_0000) (bit_and (sra32 register 8) 0xff_ffff)
keep_left (suc (suc zero)) value register =
    bit_or (bit_and value 0xffff_0000) (bit_and (sra32 register 16) 0xffff)
keep_left _ value register = bit_or (bit_and value 0xffff_ff00) (bit_and (sra32 register 24) 0xff)

abbrev pub keep_right : (byte value register : ℕ) → ℕ
keep_right zero value register = bit_or (bit_and value 0xff_ffff) (shl32 register 24)
keep_right (suc zero) value register = bit_or (bit_and value 0xffff) (shl32 register 16)
keep_right (suc (suc zero)) value register = bit_or (bit_and value 0xff) (shl32 register 8)
keep_right _ value register = register

-- `tmp & ~0x3`.
abbrev pub word_address : ℕ → ℕ
word_address tmp = bit_and tmp 0xffff_fffc

unfoldable pub exec_swl : Machine → Instruction → Option Outcome
exec_swl m i =
    let tmp = address m i in
    assert (bit_and tmp 3 == 0)
    >> after (read_mem m (word_address tmp) 4)
        λ value m'. stores m' (word_address tmp) 4 (keep_left (bit_and tmp 3) value (rt_of m' i))

unfoldable pub exec_swr : Machine → Instruction → Option Outcome
exec_swr m i =
    let tmp = address m i in
    assert (bit_and tmp 3 == 0)
    >> after (read_mem m (word_address tmp) 4)
        λ value m'. stores m' (word_address tmp) 4 (keep_right (bit_and tmp 3) value (rt_of m' i))
