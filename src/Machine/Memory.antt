-- ===== src/Machine/Memory.antt =====
-- `ReadMem` and `WriteMem` of nachos-3.4/code/machine/translate.cc, on a little-endian host whose `char` is
-- signed (the i386 and MIPS hosts), where `WordToHost` and `ShortToHost` are the identity.
pub mod RoundTrip
pub mod Registers
use n4ch0s.Base.{
  ℕ, ◌+◌, ◌*◌, ◌/◌, ◌%◌, ◌^◌, ◌==◌, ◌>>=◌, if◌then◌else◌, true, false, Option, none, some, ltb,
}
use n4ch0s.Machine.{Machine, update, ExceptionType, raise_exception}
use n4ch0s.Machine.Translate.{translate, raises, physical}

-- Either the access is done, or an exception is raised and the handler is to run on the state.
pub data Access (A : Type 0) : Type 0 where
  done : A → Machine → Access A
  trap : ExceptionType → Machine → Access A

abbrev pub then_access :
    {A B : Type 0} → Access A → (A → Machine → Option (Access B)) → Option (Access B)
then_access (done a m) k = k a m
then_access (trap e m) k = some (trap e m)

-- A byte read as a `char` and widened to an `int`.
abbrev pub sign_extend_byte : ℕ → ℕ
sign_extend_byte b = if ltb b 128 then b else b + 0xffff_ff00

abbrev pub short_at : (ℕ → ℕ) → ℕ → ℕ
short_at mem a = mem a + 2 ^ 8 * mem (a + 1)

abbrev pub word_at : (ℕ → ℕ) → ℕ → ℕ
word_at mem a = short_at mem a + 2 ^ 16 * short_at mem (a + 2)

-- The switch on the size; `none` is its `ASSERT(FALSE)`.
unfoldable pub fetch : (ℕ → ℕ) → (a size : ℕ) → Option ℕ
fetch mem a size =
    if size == 1
    then some (sign_extend_byte (mem a))
    else if size == 2
    then some (short_at mem a)
    else if size == 4
    then some (word_at mem a)
    else none

unfoldable pub read_mem : Machine → (addr size : ℕ) → Option (Access ℕ)
unfolding fetch
read_mem m addr size = translate m addr size false >>= λ (t, m'). elim t [
  | raises e ↦ some (trap e (raise_exception m' addr))
  | physical a ↦ fetch m'.main_memory a size >>= λ v. some (done v m')
]

abbrev pub put_short : (ℕ → ℕ) → ℕ → ℕ → ℕ → ℕ
put_short mem a v = update (update mem a (v % 2 ^ 8)) (a + 1) (v / 2 ^ 8 % 2 ^ 8)

unfoldable pub store : (ℕ → ℕ) → (a size value : ℕ) → Option (ℕ → ℕ)
store mem a size value =
    if size == 1
    then some (update mem a (value % 2 ^ 8))
    else if size == 2
    then some (put_short mem a value)
    else if size == 4
    then some (put_short (put_short mem a value) (a + 2) (value / 2 ^ 16))
    else none

unfoldable pub write_mem : Machine → (addr size value : ℕ) → Option (Access (Unit {0}))
unfolding store
write_mem m addr size value = translate m addr size true >>= λ (t, m'). elim t [
  | raises e ↦ some (trap e (raise_exception m' addr))
  | physical a ↦
      store m'.main_memory a size value >>= λ mem. some (done tt (record m' { main_memory = mem }))
]
