-- ===== src/Processes.antt =====
-- The table of processes of nachos-3.4/code/userprog/ptable.cc, with the blocks of pcb.cc. The semaphores
-- bmsem and multex only exclude other threads from the operations, each of which is a function here.
pub mod Family
pub mod Blocks
pub mod Shapes
pub mod Handshake
mod Tests
use n4ch0s.Base.{
  ℕ, ◌==◌, List, [], ◌∷◌, Option, none, some, Bool, true, false, if◌then◌else◌, assert, ◌>>=◌, ◌>>◌,
  get_elem?, set, replicate, ltb, not,
}
use n4ch0s.Base.Int.{ℤ, pos, negsuc, ◌+ℤ◌, ◌-ℤ◌}
use n4ch0s.BitMap
use n4ch0s.BitMap.{BitMap}
use n4ch0s.SortedList.{Element}
use n4ch0s.Semaphore
use n4ch0s.Semaphore.{Semaphore, Turn, sleeps, goes_on}
use n4ch0s.Semaphore.Table.{same_text}

pub record Pcb : Type 0 where
  pub join_sem : Semaphore
  pub exit_sem : Semaphore
  pub numwait : ℤ
  pub pid : ℕ
  pub filename : List ℕ
  pub exitcode : ℤ
  pub parent_id : ℕ

-- `none` in the array is a null pointer.
pub record PTable : Type 0 where
  pub bm : BitMap
  pub pcb : List (Option Pcb)

abbrev pub max_process : ℕ
max_process = 10

abbrev pub closed : Semaphore
closed = record { value = pos 0; queue = [] }

-- The constructor of a block, with the name and the parent that the callers set.
unfoldable pub new_pcb : (pid : ℕ) → List ℕ → (parent_id : ℕ) → Pcb
new_pcb pid filename parent_id = record {
  join_sem = closed;
  exit_sem = closed;
  numwait = pos 0;
  pid = pid;
  filename = filename;
  exitcode = pos 0;
  parent_id = parent_id;
}

-- `IncNumWait`, `DecNumWait` and `SetExitCode`.
unfoldable pub inc_num_wait : Pcb → Pcb
inc_num_wait c = record c { numwait = c.numwait +ℤ pos 1 }

unfoldable pub dec_num_wait : Pcb → Pcb
dec_num_wait c = record c { numwait = c.numwait -ℤ pos 1 }

unfoldable pub set_exit_code : Pcb → ℤ → Pcb
set_exit_code c ec = record c { exitcode = ec }

-- A round of `JoinWait` or `ExitWait` by a thread: whether it goes on, and the block.
unfoldable pub join_wait : Pcb → ℕ → Bool × Pcb
join_wait c thread = elim (Semaphore.p c.join_sem thread) [
  | sleeps x ↦ (false, record c { join_sem = x })
  | goes_on x ↦ (true, record c { join_sem = x })
]

unfoldable pub exit_wait : Pcb → ℕ → Bool × Pcb
exit_wait c thread = elim (Semaphore.p c.exit_sem thread) [
  | sleeps x ↦ (false, record c { exit_sem = x })
  | goes_on x ↦ (true, record c { exit_sem = x })
]

-- `JoinRelease` and `ExitRelease`, with the ready list.
unfoldable pub join_release : Pcb → List (Element ℕ) → Pcb × List (Element ℕ)
join_release c ready_list =
    let r = Semaphore.v c.join_sem ready_list in (record c { join_sem = r.0 }, r.1)

unfoldable pub exit_release : Pcb → List (Element ℕ) → Pcb × List (Element ℕ)
exit_release c ready_list =
    let r = Semaphore.v c.exit_sem ready_list in (record c { exit_sem = r.0 }, r.1)

-- `pcb[pid]` where it is used as a pointer to a block: `none` is a null pointer or an access outside the
-- array.
abbrev pub block : PTable → ℕ → Option Pcb
block t pid = get_elem? t.pcb pid >>= λ c. c

abbrev pub put_block : PTable → ℕ → Option Pcb → PTable
put_block t pid c = record t { pcb = set t.pcb pid c }

-- The constructor leaves the parent of the process 0 unset: it is the parameter `unset`.
unfoldable pub init : List ℕ → List ℕ → (unset : ℕ) → Option PTable
init words name unset = BitMap.init max_process words >>= λ b. BitMap.mark b (pos 0) >>= λ b'.
    some (record { bm = b'; pcb = some (new_pcb 0 name unset) ∷ replicate 9 none })

-- `ExecUpdate` of a program that can be opened or not, by the process `me` of the name `own`: the result,
-- the table, and the process whose thread `Exec` forks.
unfoldable pub exec_update :
    PTable → (opens : Bool) → (own filename : List ℕ) → (me : ℕ) → Option (ℤ × PTable × Option ℕ)
exec_update t opens own filename me =
    let start = BitMap.find t.bm >>= λ (slot, b). elim slot [
      | negsuc n ↦ some (negsuc 0, record t { bm = b }, none)
      | pos pid ↦
          assert (ltb pid max_process)
          >> some (
            pos pid,
            put_block (record t { bm = b }) pid (some (new_pcb pid filename me)),
            some pid,
          )
    ] in
    if not opens
    then some (negsuc 0, t, none)
    else if same_text own filename
    then some (negsuc 0, t, none)
    else start

-- `JoinUpdate` up to the call of `JoinWait`: `none` in the second place is the result -1.
unfoldable pub join_begin : PTable → (me : ℕ) → ℤ → Option (Option (ℕ × PTable))
join_begin t me (negsuc n) = none
join_begin t me (pos pid) = BitMap.test t.bm (pos pid) >>= λ exists.
    let ask = block t pid >>= λ c.
    let join = block t c.parent_id >>= λ parent.
    some (some (pid, put_block t c.parent_id (some (inc_num_wait parent)))) in
    if me == c.parent_id then join else some none in
    if exists then ask else some none

-- `JoinUpdate` after `JoinWait`: the exit code, and the child may end.
unfoldable pub join_end : Pcb → List (Element ℕ) → ℤ × Pcb × List (Element ℕ)
join_end c ready_list = let r = exit_release c ready_list in (c.exitcode, r.0, r.1)

-- `ExitUpdate` up to the call of `ExitWait`: the process 0 halts the machine.
pub data Exit : Type 0 where
  halts : Exit
  refuses : Exit
  ends : PTable → List (Element ℕ) → Exit

unfoldable pub exit_update : PTable → (me : ℕ) → ℤ → List (Element ℕ) → Option Exit
exit_update t me exitcode ready_list =
    let leave = block t me >>= λ c.
    let coded = put_block t me (some (set_exit_code c exitcode)) in
    block coded c.parent_id >>= λ parent.
    let counted = put_block coded c.parent_id (some (dec_num_wait parent)) in
    block counted me >>= λ c'.
    let r = join_release c' ready_list in some (ends (put_block counted me (some r.0)) r.1) in
    let other = BitMap.test t.bm (pos me) >>= λ exists. if exists then leave else some refuses in
    if me == 0 then some halts else other

-- `Remove`.
unfoldable pub remove : PTable → ℕ → Option PTable
remove t pid = BitMap.clear t.bm (pos pid) >>= λ b. some (put_block (record t { bm = b }) pid none)
