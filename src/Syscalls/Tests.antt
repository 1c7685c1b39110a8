-- ===== src/Syscalls/Tests.antt =====
-- System calls of nachos-3.4/code/userprog/exception.cc on a small machine.
use n4ch0s.Base.{
  ℕ, ◌≡◌, ◌∷◌, ◌++◌, List, [], none, some, refl, arith, if◌then◌else◌, replicate, ◌==◌, true, false,
}
use n4ch0s.Base.Int.{pos, negsuc}
use n4ch0s.Machine.{Machine, TranslationEntry, syscall_exception, write_reg}
use n4ch0s.Semaphore.Table
use n4ch0s.Semaphore.Table.{STable, new_sem, is_exist, exist_loop, same_text}
use n4ch0s.Syscalls.Transfer.{user_to_system, fetch_loop, user_byte}
use n4ch0s.Syscalls.{System, done, text, minus_one}
use n4ch0s.Syscalls.Files.{Host}
use n4ch0s.Syscalls.Handler.{ProcessTable, exception_handler}
use n4ch0s.Syscalls.Numbers.{print_int, read_int}
use n4ch0s.Syscalls.Numbers.Echo.{read_int-print_int}
use n4ch0s.Syscalls.Numbers.Numeral.{IsNumeral}
use n4ch0s.Syscalls.Handler.Counter.{print_advances, create_skips}
use n4ch0s.Machine.Memory.{read_mem, fetch}
use n4ch0s.Machine.Translate.{translate, lookup_entry, by_table, through}

abbrev frame : TranslationEntry
frame = record {
  virtual_page = 0;
  physical_page = 0;
  valid = true;
  read_only = false;
  used = true;
  dirty = false;
}

-- The call number is in the register 2 and the argument in the register 4; the program is at 96.
abbrev calling : ℕ → ℕ → Machine
calling number argument = record {
  registers = λ i.
      if i == 2
      then number
      else if i == 4
      then argument
      else if i == 34
      then 96
      else if i == 35
      then 100
      else 0;
  main_memory = λ a. 0;
  page_table = some (frame ∷ []);
  tlb = none;
}

-- The semaphore with the empty name stands at the index 0, so that it is not created again.
abbrev one_semaphore : STable
one_semaphore = record {
  bm = record { num_bits = 10; num_words = 1; map = 1 ∷ [] };
  sem_tab = some (new_sem [] (pos 1)) ∷ replicate 9 none;
}

abbrev system_with : Machine → List ℕ → System
system_with m typed = record {
  machine = m;
  typed = typed;
  shown = [];
  sem_tab = one_semaphore;
  ready_list = [];
  thread = 0;
  openf = replicate 15 none;
  host = 0;
}

-- A host without files.
abbrev no_files : Host
no_files = record {
  open_for_write = λ name h. (negsuc 0, h);
  open_for_read_write = λ name h. (negsuc 0, h);
  close = λ file h. h;
  lseek = λ file p h. h;
  read_partial = λ file n h. (negsuc 0, [], h);
  write_file = λ file bytes h. h;
  tell = λ file h. (pos 0, h);
}

abbrev no_processes : ProcessTable
no_processes = record {
  exec_update = λ name s. some (done (negsuc 0) s);
  join_update = λ pid s. some (done (negsuc 0) s);
  exit_update = λ status s. some (done (pos 0) s);
}

abbrev printing : System
printing = system_with (calling 12 407) []

abbrev reading : System
reading = system_with (calling 11 0) (52 ∷ 48 ∷ 55 ∷ 10 ∷ [])

read_int-print_int_example :
    (text : List ℕ) × (print_int (replicate 100 1) printing
      ≡ some (done tt (record printing { shown = text })))
    × (reading.typed ≡ text ++ (10 ∷ [])
        → read_int reading
          ≡ some
              (done tt (record reading { typed = []; machine = write_reg reading.machine 2 407 })))
read_int-print_int_example =
    read_int-print_int (replicate 100 1) printing reading 407 [] refl (omega arith) (omega arith)
      refl

print_advances_example :
    (s' : System) × (ds : List ℕ) × (exception_handler no_processes no_files
        (replicate 100 1)
        syscall_exception
        printing
      ≡ some (done tt s'))
    × (s'.shown ≡ ds)
    × IsNumeral 407 ds
    × (s'.machine.registers 34 ≡ 100)
    × (s'.machine.registers 35 ≡ 104)
print_advances_example =
    print_advances no_processes no_files (replicate 100 1) printing 407 refl refl (omega arith) refl

abbrev creating : System
creating = system_with (calling 17 0) []

create_skips_example :
    (s' : System) × (exception_handler no_processes no_files [] syscall_exception creating
      ≡ some (done tt s'))
    × (s'.machine.registers 2 ≡ minus_one)
    × (s'.machine.registers 34 ≡ 104)
    × (s'.sem_tab ≡ one_semaphore)
unfolding user_to_system fetch_loop user_byte read_mem fetch translate lookup_entry by_table through
    Table.create text is_exist exist_loop same_text
create_skips_example =
    create_skips no_processes no_files [] creating creating (replicate 34 0) (negsuc 0)
      one_semaphore refl refl refl
