-- ===== src/Syscalls.antt =====
-- The system calls of nachos-3.4/code/userprog/exception.cc, with the console of
-- nachos-3.4/code/threads/synchcons.cc.
pub mod Console
pub mod Transfer
pub mod Numbers
pub mod Named
pub mod Files
pub mod Handler
mod Tests
use n4ch0s.Base.{
  ℕ, ◌+◌, ◌%◌, ◌^◌, Option, none, some, List, assert, ltb, true, false, ◌-◌, ◌∷◌, ◌==◌,
  if◌then◌else◌, [],
}
use n4ch0s.Machine.{Machine, update, write_reg, pc_reg, next_pc_reg, prev_pc_reg}
use n4ch0s.SortedList.{Element}
use n4ch0s.Semaphore.Table.{STable}
use n4ch0s.Base.Int.{ℤ, pos, negsuc}
use n4ch0s.Mips.Word.{is_negative}

-- `type` of the source is `kind` here.
pub record OpenFile : Type 0 where
  pub kind : ℕ
  pub file : ℕ
  pub current_offset : ℤ

-- What a system call works on: the machine, the characters that are still to be typed, those that the
-- console has shown, the semaphores of the user programs, the ready list, the number of the current
-- thread, the table of open files, and the number that stands for the state of the host's files.
pub record System : Type 0 where
  pub machine : Machine
  pub typed : List ℕ
  pub shown : List ℕ
  pub sem_tab : STable
  pub ready_list : List (Element ℕ)
  pub thread : ℕ
  pub openf : List (Option OpenFile)
  pub host : ℕ

-- The kernel goes on, or it halts, or the thread waits (for a key, or asleep in a semaphore), or it ends.
pub data Flow (A : Type 0) : Type 0 where
  done : A → System → Flow A
  halts : Flow A
  waits : System → Flow A
  exits : System → Flow A

-- Kernel code: `none` is an ASSERT or an access outside an array.
abbrev pub Call : Type 0 → Type 0
Call A = System → Option (Flow A)

abbrev pub then_flow : {A B : Type 0} → Option (Flow A) → (A → Call B) → Option (Flow B)
then_flow none k = none
then_flow (some (done a s)) k = k a s
then_flow (some halts) k = some halts
then_flow (some (waits s)) k = some (waits s)
then_flow (some (exits s)) k = some (exits s)

infixl 5 ◌>>=◌ ◌>>◌
abbrev pub ◌>>=◌ : {A B : Type 0} → Call A → (A → Call B) → Call B
(c >>= k) s = then_flow (c s) k

abbrev pub ◌>>◌ : {B : Type 0} → Call (Unit {0}) → Call B → Call B
(c >> k) s = then_flow (c s) (λ u. k)

abbrev pub pure : {A : Type 0} → A → Call A
pure a s = some (done a s)

abbrev pub undefined : {A : Type 0} → Call A
undefined s = none

-- `interrupt->Halt()` does not return.
abbrev pub halt : {A : Type 0} → Call A
halt s = some halts

-- `machine->ReadRegister` and `WriteRegister`.
unfoldable pub read_reg : ℕ → Call ℕ
read_reg num s = elim (ltb num 40) [ true ↦ some (done (s.machine.registers num) s) | false ↦ none ]

unfoldable pub set_reg : ℕ → ℕ → Call (Unit {0})
set_reg num value s = elim (ltb num 40) [
  | true ↦ some (done tt (record s { machine = write_reg s.machine num value }))
  | false ↦ none
]

-- -1 as a 32-bit pattern.
abbrev pub minus_one : ℕ
minus_one = 4294967295

-- `AdvanceProgramCounter`.
unfoldable pub advanced : Machine → Machine
advanced m =
    let pc = m.registers pc_reg in
    let next = m.registers next_pc_reg in
    write_reg (write_reg (write_reg m prev_pc_reg pc) pc_reg next) next_pc_reg ((next + 4) % 2 ^ 32)

unfoldable pub advance_program_counter : Call (Unit {0})
advance_program_counter s = some (done tt (record s { machine = advanced s.machine }))

-- An `int` of a 32-bit pattern, and back.
abbrev pub to_int : ℕ → ℤ
to_int a = if is_negative a then negsuc (2 ^ 32 - 1 - a) else pos a

abbrev pub from_int : ℤ → ℕ
from_int (pos n) = n % 2 ^ 32
from_int (negsuc n) = 2 ^ 32 - 1 - n % 2 ^ 32

-- The text in a buffer, up to the first 0.
unfoldable pub text : List ℕ → List ℕ
text [] = []
text (c ∷ cs) = let rest = text cs in if c == 0 then [] else c ∷ rest
