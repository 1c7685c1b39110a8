-- ===== src/Syscalls/Numbers.antt =====
-- `SC_ReadInt`, `SC_PrintInt` and the calls for characters and strings, of
-- nachos-3.4/code/userprog/exception.cc.
pub mod Digits
pub mod Numeral
pub mod Echo
use n4ch0s.Base.{
  ℕ, ◌+◌, ◌-◌, ◌*◌, ◌/◌, ◌%◌, ◌||◌, ◌∷◌, zero, suc, List, [], Option, none, some, if◌then◌else◌,
  get_or, set, Bool, false, ltb, length, ◌&&◌, ◌==◌, leb,
}
use n4ch0s.Base.Int.{ℤ, pos, negsuc}
use n4ch0s.Mips.Word.{is_negative, neg32}
use n4ch0s.Machine.Memory.{sign_extend_byte}
use n4ch0s.Syscalls.{Call, pure, undefined, read_reg, set_reg, ◌>>=◌}
use n4ch0s.Syscalls.Console.{read, write}
use n4ch0s.Syscalls.Transfer.{user_to_system, system_to_user}

-- `buffer[i] < '0' || buffer[i] > '9'` for a `char`, which is signed.
abbrev pub not_digit : ℕ → Bool
not_digit c = ltb c 48 || ltb 57 c

-- The loop over the characters that were read: is one no digit?
unfoldable pub some_invalid : List ℕ → (length : ℕ) → Bool
some_invalid buffer zero = false
some_invalid [] (suc n) = false
some_invalid (c ∷ buffer) (suc n) = let rest = some_invalid buffer n in not_digit c || rest

-- The number that the leading digits of a text write, where it is at most `limit`; the text ends with a 0.
unfoldable pub digits_value : (limit : ℕ) → List ℕ → ℕ → Option ℕ
digits_value limit [] acc = none
digits_value limit (c ∷ cs) acc =
    let rest = digits_value limit cs (10 * acc + (c - 48)) in
    if not_digit c then some acc else if leb (10 * acc + (c - 48)) limit then rest else none

abbrev pub is_space : ℕ → Bool
is_space c = (c == 32) || leb 9 c && leb c 13

abbrev pub negated : Option ℕ → Option ℕ
negated none = none
negated (some n) = some (neg32 n)

-- `atoi` of the standard library, as a 32-bit pattern: white space, a sign and digits. The result is
-- undefined where no `int` holds the number.
unfoldable pub atoi : List ℕ → Option ℕ
atoi [] = none
atoi (c ∷ cs) =
    let rest = atoi cs in
    if is_space c
    then rest
    else if c == 45
    then negated (digits_value 2147483648 cs 0)
    else if c == 43
    then digits_value 2147483647 cs 0
    else digits_value 2147483647 (c ∷ cs) 0

-- `machine->WriteRegister(2, number)`.
abbrev pub answer : Option ℕ → Call (Unit {0})
answer none = undefined
answer (some number) = set_reg 2 number

-- `SC_ReadInt`: nothing goes to the register where a character is no digit. A line ended by 1 has the
-- length -1, and its characters are not looked at before `atoi`.
unfoldable pub read_int_of : ℤ → List ℕ → Call (Unit {0})
read_int_of (negsuc n) buffer = answer (atoi buffer)
read_int_of (pos len) buffer = if some_invalid buffer len then pure tt else answer (atoi buffer)

unfoldable pub read_int : Call (Unit {0})
read_int = read 100 >>= λ (length, buffer). read_int_of length buffer

-- The first loop of `SC_PrintInt`, on fuel: an `int` has ten digits at most.
unfoldable pub count_digits : ℕ → ℕ → ℕ
count_digits zero temp = 0
count_digits (suc fuel) temp =
    let rest = count_digits fuel (temp / 10) in if ltb 0 temp then suc rest else 0

-- The second loop: `buffer[i]` for `i` from `n - 1` down to 0.
unfoldable pub put_digits : (n number : ℕ) → List ℕ → List ℕ
put_digits zero number buffer = buffer
put_digits (suc i) number buffer = put_digits i (number / 10) (set buffer i (number % 10 + 48))

-- `SC_PrintInt`; `fresh` is what the new buffer of 100 bytes holds. A number that is not positive has
-- no digits here.
unfoldable pub print_int : List ℕ → Call (Unit {0})
print_int fresh = read_reg 4 >>= λ number.
    let n = if is_negative number then 0 else count_digits 10 number in
    write (put_digits n number fresh) n >>= λ w. pure tt

-- `SC_ReadChar` and `SC_PrintChar`.
unfoldable pub read_char : Call (Unit {0})
read_char = read 255 >>= λ (length, character). set_reg 2 (sign_extend_byte (get_or character 0 0))

unfoldable pub print_char : Call (Unit {0})
print_char = read_reg 4 >>= λ character. write (character % 256 ∷ []) 1 >>= λ w. pure tt

-- `SC_ReadString`; `new char[bufferSize]` needs a size that is not negative.
unfoldable pub read_string : Call (Unit {0})
read_string = read_reg 4 >>= λ virt_addr. read_reg 5 >>= λ buffer_size.
    (if is_negative buffer_size then undefined else read buffer_size) >>= λ (length, buffer).
    system_to_user virt_addr length buffer >>= λ r. pure tt

-- `SC_PrintString`: 255 characters are written, whatever the length of the string.
unfoldable pub print_string : Call (Unit {0})
print_string = read_reg 4 >>= λ virt_addr.
    user_to_system virt_addr 256 >>= λ buffer. write buffer 255 >>= λ w. pure tt
