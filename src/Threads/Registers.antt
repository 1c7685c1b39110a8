-- ===== src/Threads/Registers.antt =====
-- `SaveUserState` and `RestoreUserState` of nachos-3.4/code/threads/thread.cc.
use n4ch0s.Base.{
  ℕ, zero, suc, ◌+◌, ◌<◌, ◌≤◌, ◌≡◌, ◌∷◌, ◌∙◌, refl, sym, ap, List, [], arith, length, set, get_or,
  get_or-set, length-set, ltb, if◌then◌else◌,
}
use n4ch0s.Threads.{
  Cpu, Thread, copy_registers, num_user_registers, restore_user_state, save_user_state,
}
use mathlib.Core.Path.{ap₂}

length-copy_registers :
    (n i : ℕ) (source target : List ℕ) → length (copy_registers n i source target) ≡ length target
unfolding copy_registers
length-copy_registers zero i source target = refl
length-copy_registers (suc n) i source target =
    length-copy_registers n (i + 1) source (set target i (get_or source i 0))
    ∙ length-set target i (get_or source i 0)

-- The registers from `i` on are those of the source, and the others stay.
get_or-copy_registers :
    (n i j : ℕ) (source target : List ℕ)
    → i + n ≤ length target
    → get_or (copy_registers n i source target) j 0 ≡ (
        if ltb j i
        then get_or target j 0
        else if ltb j (i + n)
        then get_or source j 0
        else get_or target j 0)
unfolding copy_registers
get_or-copy_registers zero i j source target h = ground arith
get_or-copy_registers (suc n) i j source target h = ground (
  arith,
  get_or-copy_registers n (i + 1) j source (set target i (get_or source i 0))
      (omega (arith, length-set target i (get_or source i 0))),
  get_or-set target i j (get_or source i 0) 0 (omega arith),
)

same_entries :
    (xs ys : List ℕ)
    → length xs ≡ length ys
    → ((j : ℕ) → j < length xs → get_or xs j 0 ≡ get_or ys j 0)
    → xs ≡ ys
same_entries [] [] e h = refl
same_entries [] (y ∷ ys) e h = absurd (omega arith)
same_entries (x ∷ xs) [] e h = absurd (omega arith)
same_entries (x ∷ xs) (y ∷ ys) e h =
    ap₂ (λ a l. a ∷ l) (h 0 (omega arith))
      (same_entries xs ys (omega arith) (λ j l. h (suc j) (omega arith)))

copies_all :
    (source target : List ℕ)
    → length source ≡ num_user_registers
    → length target ≡ num_user_registers
    → copy_registers num_user_registers 0 source target ≡ source
copies_all source target h g =
    same_entries _ source (length-copy_registers num_user_registers 0 source target ∙ g ∙ sym h)
      (λ j l. ground (
        arith,
        get_or-copy_registers num_user_registers 0 j source target (omega arith),
        length-copy_registers num_user_registers 0 source target,
      ))

-- Whatever user programs do to the registers of the machine between, the registers that a thread saved
-- when it gave up the processor are back when its state is restored.
pub restore-save :
    (before after : Cpu) (t : Thread)
    → length before.registers ≡ num_user_registers
    → length after.registers ≡ num_user_registers
    → length t.user_registers ≡ num_user_registers
    → (restore_user_state (save_user_state before t) after).registers ≡ before.registers
unfolding restore_user_state save_user_state
restore-save before after t h g f =
    ap (λ x. copy_registers num_user_registers 0 x after.registers)
      (copies_all before.registers t.user_registers h f)
    ∙ copies_all before.registers after.registers h g
