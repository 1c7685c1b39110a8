-- ===== src/Threads.antt =====
-- `Thread` of nachos-3.4/code/threads/thread.cc, and what the kernel keeps of its threads
-- (scheduler.h, system.cc).
pub mod Scheduler
pub mod Steps
pub mod Semaphores
pub mod Places
pub mod Invariant
pub mod Turns
pub mod Registers
mod Tests
use n4ch0s.Base.{
  ℕ, Option, none, some, List, [], ◌==◌, if◌then◌else◌, Bool, true, false, zero, suc, ◌+◌, set,
  get_or, assert, ◌>>◌, get_elem?, ◌>>=◌, length,
}
use n4ch0s.SortedList.{Element}
use n4ch0s.Interrupt.{IntStatus, int_off, int_on}
use n4ch0s.Semaphore.{Semaphore}

pub data ThreadStatus : Type 0 where
  just_created running ready blocked : ThreadStatus

-- Where a thread goes on when the processor switches to it: what the machine state and the stack
-- hold. `at_root` is `ThreadRoot`, which enables interrupts and calls `func(arg)`; the others stand
-- after the call of `SWITCH` in `Run`, called by `Yield`, by `P` through `Sleep`, or by `Finish`, with
-- the interrupt level that their caller saved. `in_code` is a thread that runs, or has no stack yet.
pub data Point : Type 0 where
  in_code : Point
  at_root : (func arg : ℕ) → Point
  in_yield : IntStatus → Point
  in_p : (sem : ℕ) → IntStatus → Point
  in_finish : Point

-- `pageTable` is an address.
pub record AddrSpace : Type 0 where
  pub page_table : ℕ
  pub num_pages : ℕ

-- The parts of the simulated machine that a switch saves and sets.
pub record Cpu : Type 0 where
  pub registers : List ℕ
  pub page_table : ℕ
  pub page_table_size : ℕ

pub record Thread : Type 0 where
  pub status : ThreadStatus
  pub point : Point
  pub stack : Option (List ℕ)
  pub user_registers : List ℕ
  pub space : Option AddrSpace

-- A thread, a semaphore and an address space are known by their addresses, which are numbers.
pub record Kernel : Type 0 where
  pub current : ℕ
  pub threads : ℕ → Option Thread
  pub ready_list : List (Element ℕ)
  pub to_be_destroyed : Option ℕ
  pub level : IntStatus
  pub cpu : Cpu
  pub semaphores : ℕ → Semaphore

abbrev pub stack_size : ℕ
stack_size = 4096

abbrev pub stack_fencepost : ℕ
stack_fencepost = 3735928559

-- The constructor; `registers` is what the memory holds.
unfoldable pub new_thread : List ℕ → Thread
new_thread registers = record {
  status = just_created;
  point = in_code;
  stack = none;
  user_registers = registers;
  space = none;
}

-- `StackAllocate`, for a host whose stack grows down; `words` is the memory that it is given.
unfoldable pub stack_allocate : Thread → List ℕ → (func arg : ℕ) → Thread
stack_allocate t words func arg = record t {
  stack = some (set words 0 stack_fencepost);
  point = at_root func arg;
}

unfoldable pub fenced : Option (List ℕ) → Bool
fenced none = true
fenced (some words) = get_or words 0 0 == stack_fencepost

-- `CheckOverflow`.
unfoldable pub check_overflow : Thread → Option (Unit {0})
check_overflow t = assert (fenced t.stack)

-- The loops of `SaveUserState` and `RestoreUserState`, over `n` registers from `i` on.
unfoldable pub copy_registers : ℕ → ℕ → List ℕ → List ℕ → List ℕ
copy_registers zero i source target = target
copy_registers (suc n) i source target =
    copy_registers n (i + 1) source (set target i (get_or source i 0))

abbrev pub num_user_registers : ℕ
num_user_registers = 40

unfoldable pub save_user_state : Cpu → Thread → Thread
save_user_state c t = record t {
  user_registers = copy_registers num_user_registers 0 c.registers t.user_registers;
}

unfoldable pub restore_user_state : Thread → Cpu → Cpu
restore_user_state t c = record c {
  registers = copy_registers num_user_registers 0 t.user_registers c.registers;
}

-- `AddrSpace::RestoreState`; `SaveState` does nothing.
unfoldable pub restore_state : AddrSpace → Cpu → Cpu
restore_state a c = record c { page_table = a.page_table; page_table_size = a.num_pages }

abbrev pub update {ℓ} : {A : Type ℓ} → (ℕ → A) → ℕ → A → ℕ → A
update f i a j = if i == j then a else f j

abbrev pub put_thread : Kernel → ℕ → Option Thread → Kernel
put_thread k i t = record k { threads = update k.threads i t }

-- The kernel once `Initialize` has made the thread `main` and enabled interrupts.
unfoldable pub init : (main : ℕ) → List ℕ → Cpu → (ℕ → Semaphore) → Kernel
init main registers cpu semaphores = record {
  current = main;
  threads = update (λ i. none) main (some (record (new_thread registers) { status = running }));
  ready_list = [];
  to_be_destroyed = none;
  level = int_on;
  cpu = cpu;
  semaphores = semaphores;
}
