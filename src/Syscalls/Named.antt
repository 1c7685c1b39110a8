-- ===== src/Syscalls/Named.antt =====
-- `SC_CreateSemaphore`, `SC_Signal` and `SC_Wait` of nachos-3.4/code/userprog/exception.cc.
use n4ch0s.Base.{ℕ, List, none, some, if◌then◌else◌}
use n4ch0s.Base.Int.{ℤ, pos, negsuc}
use n4ch0s.Semaphore.{sleeps, goes_on, is_zero}
use n4ch0s.Semaphore.Table
use n4ch0s.Semaphore.Table.{STable}
use n4ch0s.Syscalls.{
  Call, done, waits, read_reg, set_reg, advance_program_counter, ◌>>=◌, ◌>>◌, to_int, from_int,
  text, minus_one,
}
use n4ch0s.Syscalls.Transfer.{user_to_system}

-- `MaxNameLength + 1`.
abbrev pub name_limit : ℕ
name_limit = 33

unfoldable pub create_named : List ℕ → ℤ → Call ℤ
create_named name value s = elim (Table.create s.sem_tab name value) [
  | none ↦ none
  | some (index, t) ↦ some (done index (record s { sem_tab = t }))
]

-- `GetValue`, whose result is printed.
unfoldable pub value_of : List ℕ → Call ℤ
value_of name s = elim (Table.get_value s.sem_tab name) [
  | none ↦ none
  | some value ↦ some (done value s)
]

unfoldable pub exist_of : List ℕ → Call ℤ
exist_of name s = some (done (Table.is_exist s.sem_tab name) s)

unfoldable pub signal_named : List ℕ → Call ℤ
signal_named name s = elim (Table.signal s.sem_tab name s.ready_list) [
  | none ↦ none
  | some (result, t, list) ↦ some (done result (record s { sem_tab = t; ready_list = list }))
]

-- `Wait`, where the thread may go to sleep in the semaphore.
unfoldable pub wait_named : List ℕ → Call ℤ
wait_named name s = elim (Table.wait s.sem_tab name s.thread) [
  | none ↦ none
  | some none ↦ some (done (negsuc 0) s)
  | some (some (sleeps x, t)) ↦ some (waits (record s { sem_tab = t }))
  | some (some (goes_on x, t)) ↦ some (done (pos 0) (record s { sem_tab = t }))
]

-- The cases of the handler. Each of them advances the program counter, which the handler does again
-- after the switch.
unfoldable pub sc_create_semaphore : Call (Unit {0})
sc_create_semaphore = read_reg 4 >>= λ virt_addr. read_reg 5 >>= λ init_val.
    user_to_system virt_addr name_limit >>= λ name.
    create_named (text name) (to_int init_val) >>= λ index.
    set_reg 2 (from_int index) >> advance_program_counter

-- `!IsExist(name)` holds for the index 0, and not for -1.
unfoldable pub sc_signal : Call (Unit {0})
sc_signal = read_reg 4 >>= λ virt_addr. user_to_system virt_addr name_limit >>= λ name.
    value_of (text name) >>= λ value. exist_of (text name) >>= λ index.
    (if is_zero index
      then set_reg 2 minus_one
      else (signal_named (text name) >>= λ result. set_reg 2 (from_int result)))
    >> advance_program_counter

unfoldable pub sc_wait : Call (Unit {0})
sc_wait = read_reg 4 >>= λ virt_addr. user_to_system virt_addr name_limit >>= λ name.
    value_of (text name) >>= λ value. exist_of (text name) >>= λ index.
    (if is_zero index
      then set_reg 2 minus_one
      else (wait_named (text name) >>= λ result. set_reg 2 (from_int result)))
    >> advance_program_counter
