-- ===== src/Mips/Execute/Control.antt =====
-- What the branches of the switch in nachos-3.4/code/machine/mipssim.cc do to the registers that
-- control the machine: the program counters and the load in progress.
use n4ch0s.Base.{
  ℕ, ◌<◌, ◌≤◌, ◌≡◌, ◌∙◌, if◌then◌else◌, refl, ap, Bool, true, false, Option, none, some, arith,
}
use n4ch0s.Machine.{
  pc_reg, Machine, update, num_total_regs, ExceptionType, lo_reg, hi_reg, raise_exception,
}
use n4ch0s.Mips.Decode.{Instruction}
use n4ch0s.Mips.Execute.Ending.{after, Outcome, sets, retire, raises_exception, stop}
use n4ch0s.Mips.Execute.Arith.{sets_lo_hi}
use n4ch0s.Machine.Memory.{Access, trap, done}
use n4ch0s.Machine.Memory.Registers.{Accesses}

-- The numbers of the control registers: they stand above those that an instruction can name.
abbrev pub IsControl : ℕ → Type 0
IsControl k = (pc_reg ≤ k) × (k < num_total_regs)

abbrev pub KeepsControl : Machine → Machine → Type 0
KeepsControl m m' = (k : ℕ) → IsControl k → m'.registers k ≡ m.registers k

-- `retire` keeps the control registers and leaves a load to a register that an instruction can
-- name; `stop` leaves the registers as `RaiseException` does on the state before the instruction.
unfoldable pub Ends : Machine → Option Outcome → Type 0
Ends m none = Unit {0}
Ends m (some (retire m' pc_after reg value)) = KeepsControl m m' × (reg < 32)
Ends m (some (stop e m')) = (addr : ℕ) × (m'.registers ≡ (raise_exception m addr).registers)

-- The fields of a decoded instruction.
pub record Fields (i : Instruction) : Type 0 where
  pub rs_field : i.rs < 32
  pub rt_field : i.rt < 32
  pub rd_field : i.rd < 32

pub update-above : (f : ℕ → ℕ) (i v k : ℕ) → i < pc_reg → IsControl k → update f i v k ≡ f k
unfolding update
update-above f i v k h c = ground (arith, h, c)

pub sets-Ends : (m : Machine) (num value : ℕ) → num < pc_reg → Ends m (sets m num value)
unfolding Ends
sets-Ends m num value h = ((λ k c. update-above m.registers num value k h c), omega arith)

pub sets_lo_hi-Ends : (m : Machine) (lo hi : ℕ) → Ends m (sets_lo_hi m lo hi)
unfolding Ends
sets_lo_hi-Ends m lo hi = (
  (λ k c.
      update-above (update m.registers lo_reg lo) hi_reg hi k (omega arith) c
      ∙ update-above m.registers lo_reg lo k (omega arith) c),
  omega arith,
)

-- One test, on both of whose branches the property holds.
pub if-Ends :
    (m : Machine) (b : Bool) (x y : Option Outcome)
    → Ends m x
    → Ends m y
    → Ends m (if b then x else y)
unfolding Ends
if-Ends m true x y p q = p
if-Ends m false x y p q = q

pub raises-Ends : (m : Machine) (which : ExceptionType) → Ends m (raises_exception which m)
unfolding Ends
raises-Ends m which = (0, refl)

-- A memory access, and what is done with the state it leaves.
pub after-Ends :
    {A : Type 0} (m : Machine) (addr : ℕ) (r : Option (Access A)) (k : A → Machine → Option Outcome)
    → Accesses m addr r
    → ((a : A) (m' : Machine) → m'.registers ≡ m.registers → Ends m (k a m'))
    → Ends m (after r k)
unfolding after Ends
after-Ends m addr none k h f = tt
after-Ends m addr (some (trap e m')) k h f = (addr, h)
after-Ends m addr (some (done a m')) k h f = f a m' h

pub keeps : (m m' : Machine) → m'.registers ≡ m.registers → KeepsControl m m'
keeps m m' h k c = ap (λ (r : ℕ → ℕ). r k) h
