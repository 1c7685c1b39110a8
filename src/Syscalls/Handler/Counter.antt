-- ===== src/Syscalls/Handler/Counter.antt =====
-- Where a user program goes on after a system call of nachos-3.4/code/userprog/exception.cc.
use n4ch0s.Base.{
  ℕ, ◌+◌, ◌%◌, ◌^◌, ◌≡◌, ◌∙◌, zero, suc, List, Option, none, some, refl, ap, Bool-cases, ◌==◌, set,
  inl, inr, ◌<◌, ◌++◌, length, arith,
}
use n4ch0s.Base.Int.{ℤ}
use n4ch0s.Machine.{Machine, pc_reg, next_pc_reg, syscall_exception, update, write_reg}
use n4ch0s.Machine.Memory.{Access, trap, read_mem}
use n4ch0s.Semaphore.Table
use n4ch0s.Semaphore.Table.{STable}
use n4ch0s.Syscalls.{
  ◌>>=◌, ◌>>◌, System, Flow, done, halts, waits, exits, Call, then_flow, from_int, to_int, text,
  read_reg, set_reg, advance_program_counter, advanced,
}
use n4ch0s.Syscalls.Transfer.{fetch_loop, user_byte, user_to_system}
use n4ch0s.Syscalls.Handler.{ProcessTable, exception_handler, system_call}
use n4ch0s.Syscalls.Files.{Host}
use n4ch0s.Machine.Memory.Registers.{Accesses, read_mem-Accesses}
use n4ch0s.Syscalls.Named.{sc_create_semaphore, create_named}
use mathlib.Core.Path.{subst}
use n4ch0s.Syscalls.Numbers.Numeral.{IsNumeral, decimal-IsNumeral}
use n4ch0s.Syscalls.Numbers.Echo.{shown_digits, print_int-shows}

-- Kernel code that goes on leaves the registers alone.
abbrev Keeps : {A : Type 0} → System → Option (Flow A) → Type 0
Keeps s none = Unit {0}
Keeps s (some (done a s')) = s'.machine.registers ≡ s.machine.registers
Keeps s (some halts) = Unit {0}
Keeps s (some (waits s')) = Unit {0}
Keeps s (some (exits s')) = Unit {0}

Keeps-from :
    {A : Type 0} (s s' : System) (o : Option (Flow A))
    → s'.machine.registers ≡ s.machine.registers
    → Keeps s' o
    → Keeps s o
Keeps-from s s' none h g = tt
Keeps-from s s' (some (done a t)) h g = g ∙ h
Keeps-from s s' (some halts) h g = tt
Keeps-from s s' (some (waits t)) h g = tt
Keeps-from s s' (some (exits t)) h g = tt

then_flow-Keeps :
    {A B : Type 0} (s : System) (o : Option (Flow A)) (k : A → Call B)
    → Keeps s o
    → ((a : A) (s' : System) → Keeps s' (k a s'))
    → Keeps s (then_flow o k)
then_flow-Keeps s none k h g = tt
then_flow-Keeps s (some (done a s')) k h g = Keeps-from s s' (k a s') h (g a s')
then_flow-Keeps s (some halts) k h g = tt
then_flow-Keeps s (some (waits s')) k h g = tt
then_flow-Keeps s (some (exits s')) k h g = tt

user_byte-Keeps : (addr : ℕ) (s : System) → Keeps s (user_byte addr s)
unfolding user_byte
user_byte-Keeps addr s = go (read_mem s.machine addr 1) (read_mem-Accesses s.machine addr 1)
  where
    go :
        (r : Option (Access ℕ))
        → Accesses s.machine addr r
        → Keeps s (elim r as (λ x. Option (Flow ℕ)) [
          | none ↦ none
          | some access ↦ elim access as (λ x. Option (Flow ℕ)) [
            | Access.done v m ↦ some (Flow.done v (record s { machine = m }))
            | trap e m ↦ some halts
          ]
        ])
    go none h = tt
    go (some (Access.done v m)) h = h
    go (some (trap e m)) h = tt

fetch_loop-Keeps :
    (virt_addr n i : ℕ) (buf : List ℕ) (s : System) → Keeps s (fetch_loop virt_addr n i buf s)
unfolding fetch_loop
fetch_loop-Keeps virt_addr zero i buf s = refl
fetch_loop-Keeps virt_addr (suc n) i buf s =
    then_flow-Keeps s (user_byte ((virt_addr + i) % 2 ^ 32) s) _
      (user_byte-Keeps ((virt_addr + i) % 2 ^ 32) s)
      (λ c s'. elim (Bool-cases (c == 0)) [
        | inl e ↦ rw e refl
        | inr e ↦ rw e (fetch_loop-Keeps virt_addr n (i + 1) (set buf i (c % 256)) s')
      ])

user_to_system-Keeps :
    (virt_addr limit : ℕ) (s : System) → Keeps s (user_to_system virt_addr limit s)
unfolding user_to_system
user_to_system-Keeps virt_addr limit s = fetch_loop-Keeps virt_addr limit 0 _ s

module _ (p_tab : ProcessTable) (host : Host) (fresh : List ℕ) where
  -- `SC_CreateSemaphore` gives its index to the user program and advances the program counter twice: the
  -- instruction after the system call is not executed.
  pub create_skips :
      (s s₁ : System) (name : List ℕ) (index : ℤ) (t : STable)
      → s.machine.registers 2 ≡ 17
      → user_to_system (s.machine.registers 4) 33 s ≡ some (done name s₁)
      → Table.create s₁.sem_tab (text name) (to_int (s.machine.registers 5)) ≡ some (index, t)
      → (s' : System) × (exception_handler p_tab host fresh syscall_exception s ≡ some (done tt s'))
        × (s'.machine.registers 2 ≡ from_int index)
        × (s'.machine.registers pc_reg ≡ (s.machine.registers next_pc_reg + 4) % 2 ^ 32)
        × (s'.sem_tab ≡ t)
  unfolding exception_handler system_call sc_create_semaphore read_reg set_reg create_named
      advance_program_counter advanced update
  create_skips s s₁ name index t call there made =
      let answer : ℤ → Call (Unit {0}) =
        λ index. set_reg 2 (from_int index) >> advance_program_counter in
      let make : List ℕ → Call (Unit {0}) =
        λ name. create_named (text name) (to_int (s.machine.registers 5)) >>= answer in
      let s₂ : System = record s₁ { sem_tab = t } in
      let m : Machine = write_reg s₁.machine 2 (from_int index) in
      let kept : s₁.machine.registers ≡ s.machine.registers =
        subst (Keeps s) there (user_to_system-Keeps (s.machine.registers 4) 33 s) in
      (
        record s₂ { machine = advanced (advanced m) },
        ap (λ number. (system_call p_tab host fresh number >> advance_program_counter) s) call
            ∙ ap
                (λ (o : Option (Flow (List ℕ))).
                  then_flow (then_flow o make) (λ u. advance_program_counter))
                there
            ∙ ap
                (λ (o : Option (ℤ × STable)).
                  then_flow
                    (then_flow
                      (elim o as (λ x. Option (Flow ℤ)) [
                        | none ↦ none
                        | some (index, t) ↦ some (done index (record s₁ { sem_tab = t }))
                      ])
                      answer)
                    (λ u. advance_program_counter))
                made,
        refl,
        ap (λ (r : ℕ → ℕ). (r next_pc_reg + 4) % 2 ^ 32) kept,
        refl,
      )

  -- `SC_PrintInt` of a number that is not negative shows its decimal numeral without leading zeros, which for 0 is
  -- nothing at all, and the user program goes on with the instruction after the system call.
  pub print_advances :
      (s : System) (n : ℕ)
      → s.machine.registers 2 ≡ 12
      → s.machine.registers 4 ≡ n
      → n < 2 ^ 31
      → length fresh ≡ 100
      → (s' : System) × (ds : List ℕ) × (exception_handler p_tab host fresh syscall_exception s
          ≡ some (done tt s'))
        × (s'.shown ≡ s.shown ++ ds)
        × IsNumeral n ds
        × (s'.machine.registers pc_reg ≡ s.machine.registers next_pc_reg)
        × (s'.machine.registers next_pc_reg ≡ (s.machine.registers next_pc_reg + 4) % 2 ^ 32)
  unfolding exception_handler system_call read_reg advance_program_counter advanced update
  print_advances s n call r h l = (
    record s { shown = s.shown ++ shown_digits n; machine = advanced s.machine },
    shown_digits n,
    ap (λ number. (system_call p_tab host fresh number >> advance_program_counter) s) call
        ∙ ap (λ (o : Option (Flow (Unit {0}))). then_flow o (λ u. advance_program_counter))
            (print_int-shows n h fresh s r l),
    refl,
    decimal-IsNumeral n (omega arith),
    refl,
    refl,
  )
