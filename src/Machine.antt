-- ===== src/Machine.antt =====
-- The simulated machine of nachos-3.4/code/machine/machine.h and machine.cc: registers, memory, translation.
pub mod Translate
pub mod Memory
pub mod Tests
use n4ch0s.Base.{
  ℕ, ◌*◌, ◌∷◌, ◌==◌, ◌>>◌, if◌then◌else◌, Bool, false, Option, none, some, List, [], assert, ltb,
}

pub data ExceptionType : Type 0 where
  no_exception syscall_exception page_fault_exception read_only_exception : ExceptionType
  bus_error_exception address_error_exception overflow_exception : ExceptionType
  illegal_instr_exception num_exception_types : ExceptionType

abbrev pub page_size : ℕ
page_size = 512

abbrev pub num_phys_pages : ℕ
num_phys_pages = 128

abbrev pub memory_size : ℕ
memory_size = num_phys_pages * page_size

-- Register numbers.
abbrev pub stack_reg : ℕ
stack_reg = 29

abbrev pub ret_addr_reg : ℕ
ret_addr_reg = 31

abbrev pub hi_reg : ℕ
hi_reg = 32

abbrev pub lo_reg : ℕ
lo_reg = 33

abbrev pub pc_reg : ℕ
pc_reg = 34

abbrev pub next_pc_reg : ℕ
next_pc_reg = 35

abbrev pub prev_pc_reg : ℕ
prev_pc_reg = 36

abbrev pub load_reg : ℕ
load_reg = 37

abbrev pub load_value_reg : ℕ
load_value_reg = 38

abbrev pub bad_vaddr_reg : ℕ
bad_vaddr_reg = 39

abbrev pub num_total_regs : ℕ
num_total_regs = 40

-- `used` is the source's `use`.
pub record TranslationEntry : Type 0 where
  pub virtual_page : ℕ
  pub physical_page : ℕ
  pub valid : Bool
  pub read_only : Bool
  pub used : Bool
  pub dirty : Bool

-- A register holds a 32-bit pattern and a memory cell a byte. `pageTableSize` is the length of the
-- page table; `none` is a null pointer.
pub record Machine : Type 0 where
  pub registers : ℕ → ℕ
  pub main_memory : ℕ → ℕ
  pub page_table : Option (List TranslationEntry)
  pub tlb : Option (List TranslationEntry)

-- An array with one entry written.
unfoldable pub update : (ℕ → ℕ) → ℕ → ℕ → ℕ → ℕ
update f i v j = if i == j then v else f j

-- `registers[num] = value`.
abbrev pub write_reg : Machine → ℕ → ℕ → Machine
write_reg m num value = record m { registers = update m.registers num value }

-- The constructor: every register and byte is 0. `use_tlb` stands for `#ifdef USE_TLB`; `fresh` is
-- what `new TranslationEntry[TLBSize]` finds in the memory.
unfoldable invalid : List TranslationEntry → List TranslationEntry
invalid [] = []
invalid (e ∷ es) = record e { valid = false } ∷ invalid es

unfoldable pub init : Bool → List TranslationEntry → Machine
unfolding invalid
init use_tlb fresh = record {
  registers = λ i. 0;
  main_memory = λ a. 0;
  page_table = none;
  tlb = if use_tlb then some (invalid fresh) else none;
}

-- `ReadRegister` and `WriteRegister`, with their ASSERT.
unfoldable pub read_register : Machine → ℕ → Option ℕ
read_register m num = assert (ltb num num_total_regs) >> some (m.registers num)

unfoldable pub write_register : Machine → ℕ → ℕ → Option Machine
write_register m num value = assert (ltb num num_total_regs) >> some (write_reg m num value)

-- `DelayedLoad` of mipssim.cc: the load in progress takes effect, and the next one is recorded.
unfoldable pub delayed_load : Machine → ℕ → ℕ → Machine
unfolding update
delayed_load m next_reg next_value =
    let r = m.registers in
    let loaded = update r (r load_reg) (r load_value_reg) in
    let pending = update (update loaded load_reg next_reg) load_value_reg next_value in
    record m { registers = update pending 0 0 }

-- `RaiseException` up to the call of the kernel's handler, which runs on the state returned here.
unfoldable pub raise_exception : Machine → ℕ → Machine
unfolding delayed_load
raise_exception m bad_vaddr = delayed_load (write_reg m bad_vaddr_reg bad_vaddr) 0 0
