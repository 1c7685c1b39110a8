-- ===== src/Mips/Run/Stepped.antt =====
-- What one step of nachos-3.4/code/machine/mipssim.cc does to the program counters.
use n4ch0s.Base.{ℕ, ◌<◌, ◌≤◌, ◌≡◌, ◌∙◌, ◌>>=◌, refl, ap, Option, none, some, arith}
use n4ch0s.Machine.{
  Machine, delayed_load, raise_exception, load_reg, update, pc_reg, ExceptionType, next_pc_reg,
  prev_pc_reg, write_reg, bad_vaddr_reg,
}
use n4ch0s.Mips.Run.{
  finish, one_instruction, Step, Outcome, advanced, after, retire, trapped, read_mem, stop, execute,
}
use n4ch0s.Mips.Decode.{decode}
use n4ch0s.Mips.Execute.Control.{Fields, KeepsControl, Ends, after-Ends}
use mathlib.Core.Path.{subst}
use n4ch0s.Machine.Memory.Registers.{raise_exception-registers, read_mem-Accesses}
use n4ch0s.Mips.Execute.Precise.{execute-Ends}
use mathlib.Core.Option.{some-injective}

-- The zero register holds 0, and the load in progress is for a register that an instruction names.
pub record WellFormed (m : Machine) : Type 0 where
  pub zero_register : m.registers 0 ≡ 0
  pub load_register : m.registers load_reg < 32

-- After the instruction the counters have moved on, after an exception they are what they were.
abbrev pub Stepped : Machine → Step → Type 0
Stepped m (advanced m') =
    (m'.registers pc_reg ≡ m.registers next_pc_reg)
    × (m'.registers prev_pc_reg ≡ m.registers pc_reg)
    × WellFormed m'
Stepped m (trapped e m') =
    (m'.registers pc_reg ≡ m.registers pc_reg)
    × (m'.registers next_pc_reg ≡ m.registers next_pc_reg)
    × WellFormed m'

delayed_load-counters :
    (m : Machine) (reg value k : ℕ)
    → m.registers load_reg < 32
    → pc_reg ≤ k
    → k ≤ prev_pc_reg
    → (delayed_load m reg value).registers k ≡ m.registers k
unfolding delayed_load update
delayed_load-counters m reg value k h l u = ground (arith, h)

delayed_load-WellFormed :
    (m : Machine) (reg value : ℕ) → reg < 32 → WellFormed (delayed_load m reg value)
unfolding delayed_load update
delayed_load-WellFormed m reg value h = record { zero_register = refl; load_register = h }

-- The state that `finish` makes of a retired instruction.
retired-Stepped :
    (m m' : Machine) (p reg value : ℕ)
    → KeepsControl m m'
    → reg < 32
    → m.registers load_reg < 32
    → Stepped m (finish (retire m' p reg value))
unfolding finish update
retired-Stepped m m' p reg value keeps r w = (
  counter next_pc_reg (omega arith) (omega arith),
  counter pc_reg (omega arith) (omega arith),
  record {
    zero_register = (delayed_load-WellFormed m' reg value r).zero_register;
    load_register = (delayed_load-WellFormed m' reg value r).load_register;
  },
)
  where
    counter :
        (k : ℕ)
        → pc_reg ≤ k
        → k ≤ prev_pc_reg
        → (delayed_load m' reg value).registers k ≡ m.registers k
    counter k l u =
        delayed_load-counters m' reg value k (rw (keeps load_reg (omega arith, omega arith)) w) l u
        ∙ keeps k (l, omega arith)

-- The state that an exception leaves.
stopped-Stepped :
    (m m' : Machine) (e : ExceptionType) (addr : ℕ)
    → m'.registers ≡ (raise_exception m addr).registers
    → m.registers load_reg < 32
    → Stepped m (trapped e m')
unfolding raise_exception update
stopped-Stepped m m' e addr h w = (
  ap (λ (r : ℕ → ℕ). r pc_reg) h
      ∙ delayed_load-counters (write_reg m bad_vaddr_reg addr) 0 0 pc_reg w (omega arith)
          (omega arith),
  ap (λ (r : ℕ → ℕ). r next_pc_reg) h
      ∙ delayed_load-counters (write_reg m bad_vaddr_reg addr) 0 0 next_pc_reg w (omega arith)
          (omega arith),
  record {
    zero_register =
        ap (λ (r : ℕ → ℕ). r 0) h
        ∙ (delayed_load-WellFormed (write_reg m bad_vaddr_reg addr) 0 0
            (omega arith)).zero_register;
    load_register = rw (ap (λ (r : ℕ → ℕ). r load_reg) h) (
        (delayed_load-WellFormed (write_reg m bad_vaddr_reg addr) 0 0 (omega arith)).load_register);
  },
)

Ends-Stepped :
    (m : Machine) (r : Option Outcome) (s : Step)
    → m.registers load_reg < 32
    → Ends m r
    → (r >>= λ o. some (finish o)) ≡ some s
    → Stepped m s
unfolding finish Ends
Ends-Stepped m none s w e h = cc
Ends-Stepped m (some (retire m' p reg value)) s w (keeps, r) h =
    subst (Stepped m) (some-injective _ s h) (retired-Stepped m m' p reg value keeps r w)
Ends-Stepped m (some (stop e m')) s w (addr, g) h =
    subst (Stepped m) (some-injective _ s h) (stopped-Stepped m m' e addr g w)

decode-Fields : (raw : ℕ) → Fields (decode raw)
unfolding decode
decode-Fields raw = record {
  rs_field = omega arith;
  rt_field = omega arith;
  rd_field = omega arith;
}

-- A state with the same registers will do for `Ends`.
Ends-from :
    (m m' : Machine) (r : Option Outcome) → m'.registers ≡ m.registers → Ends m' r → Ends m r
unfolding Ends
Ends-from m m' none h e = tt
Ends-from m m' (some (retire n p reg value)) h (k, l) =
    ((λ j c. k j c ∙ ap (λ (f : ℕ → ℕ). f j) h), l)
Ends-from m m' (some (stop e n)) h (addr, g) = (addr, g ∙ raise_exception-registers m m' addr h)

-- One step of a machine with a load in progress for a general register or none: an instruction that
-- is carried out sets PC to the old NextPC and PrevPC to the old PC; an exception, in the fetch, in
-- the access to the memory or in the arithmetic, leaves PC and NextPC at the instruction that raised
-- it. In both cases the zero register is 0 afterwards and the load in progress is again for a
-- general register.
pub one_instruction-Stepped :
    (m : Machine) (s : Step) → m.registers load_reg < 32 → one_instruction m ≡ some s → Stepped m s
unfolding one_instruction
one_instruction-Stepped m s w h =
    Ends-Stepped m
      (after (read_mem m (m.registers pc_reg) 4)
        (λ raw m'. execute (decode raw).op_code m' (decode raw)))
      s w
      (after-Ends m (m.registers pc_reg) (read_mem m (m.registers pc_reg) 4) _
        (read_mem-Accesses m (m.registers pc_reg) 4)
        (λ raw m' k.
          Ends-from m m' _ k
            (execute-Ends (decode raw).op_code m' (decode raw) (decode-Fields raw))))
      h
