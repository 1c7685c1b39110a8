-- ===== src/Syscalls/Handler.antt =====
-- `ExceptionHandler` of nachos-3.4/code/userprog/exception.cc.
pub mod Counter
use n4ch0s.Base.{ℕ, List, some, ◌==◌, if◌then◌else◌}
use n4ch0s.Base.Int.{ℤ}
use n4ch0s.Machine.{ExceptionType, no_exception, syscall_exception}
use n4ch0s.Syscalls.{
  Call, exits, pure, halt, read_reg, set_reg, advance_program_counter, ◌>>=◌, ◌>>◌, from_int,
  to_int, text,
}
use n4ch0s.Syscalls.Transfer.{user_to_system}
use n4ch0s.Syscalls.Files.{Host, sc_create, sc_open, sc_read, sc_write, sc_close}
use n4ch0s.Syscalls.Numbers.{read_int, print_int, read_char, print_char, read_string, print_string}
use n4ch0s.Syscalls.Named.{sc_create_semaphore, sc_signal, sc_wait}

-- The table of processes, `pTab`, as the handler uses it.
pub record ProcessTable : Type 0 where
  pub exec_update : List ℕ → Call ℤ
  pub join_update : ℤ → Call ℤ
  pub exit_update : ℤ → Call ℤ

-- `currentThread->Finish()` does not return.
unfoldable pub finish : Call (Unit {0})
finish s = some (exits s)

module _ (p_tab : ProcessTable) where
  unfoldable pub sc_exec : Call (Unit {0})
  sc_exec = read_reg 4 >>= λ virt_addr. user_to_system virt_addr 33 >>= λ filename.
      p_tab.exec_update (text filename) >>= λ pid. set_reg 2 (from_int pid)

  unfoldable pub sc_join : Call (Unit {0})
  sc_join = read_reg 4 >>= λ pid.
      p_tab.join_update (to_int pid) >>= λ exitcode. set_reg 2 (from_int exitcode)

  -- A status other than 0 leaves the switch at once.
  unfoldable pub sc_exit : Call (Unit {0})
  sc_exit = read_reg 4 >>= λ exitstatus.
      let leave = p_tab.exit_update (to_int exitstatus) >>= λ r. set_reg 2 exitstatus >> finish in
      if exitstatus == 0 then leave else pure tt

module _ (p_tab : ProcessTable) (host : Host) (fresh : List ℕ) where
  -- The switch on the number of the system call; `fresh` is what a new buffer of 100 bytes holds.
  unfoldable pub system_call : ℕ → Call (Unit {0})
  system_call number =
      if number == 0
      then halt
      else if number == 1
      then sc_exit p_tab
      else if number == 2
      then sc_exec p_tab
      else if number == 3
      then sc_join p_tab
      else if number == 4
      then sc_create host
      else if number == 5
      then sc_open host
      else if number == 6
      then sc_read host
      else if number == 7
      then sc_write host
      else if number == 8
      then sc_close host
      else if number == 11
      then read_int
      else if number == 12
      then print_int fresh
      else if number == 13
      then read_char
      else if number == 14
      then print_char
      else if number == 15
      then read_string
      else if number == 16
      then print_string
      else if number == 17
      then sc_create_semaphore
      else if number == 18
      then sc_signal
      else if number == 19
      then sc_wait
      else halt

  unfoldable pub exception_handler : ExceptionType → Call (Unit {0})
  exception_handler no_exception = read_reg 2 >>= λ number. pure tt
  exception_handler syscall_exception =
      read_reg 2 >>= λ number. system_call number >> advance_program_counter
  exception_handler which = read_reg 2 >>= λ number. halt
