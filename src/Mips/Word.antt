-- ===== src/Mips/Word.antt =====
-- 32-bit patterns and the C operations of mipssim.cc on them.
use n4ch0s.Base.{ℕ, ◌+◌, ◌-◌, ◌*◌, ◌/◌, ◌%◌, ◌^◌, if◌then◌else◌, Bool, leb, ltb, not}

abbrev pub word_mod : ℕ
word_mod = 2 ^ 32

-- `SIGN_BIT` is set.
abbrev pub is_negative : ℕ → Bool
is_negative a = leb (2 ^ 31) a

abbrev pub add32 : ℕ → ℕ → ℕ
add32 a b = (a + b) % word_mod

abbrev pub sub32 : ℕ → ℕ → ℕ
sub32 a b = (a + word_mod - b) % word_mod

-- `-a`.
abbrev pub neg32 : ℕ → ℕ
neg32 a = (word_mod - a) % word_mod

-- `~a`.
abbrev pub not32 : ℕ → ℕ
not32 a = word_mod - 1 - a

-- `a << k`.
abbrev pub shl32 : ℕ → ℕ → ℕ
shl32 a k = a * 2 ^ k % word_mod

-- `a >> k` on an `int`: the sign is shifted in.
abbrev pub sra32 : ℕ → ℕ → ℕ
sra32 a k = if is_negative a then not32 (not32 a / 2 ^ k) else a / 2 ^ k

-- `a < b` on `int`.
abbrev pub slt32 : ℕ → ℕ → Bool
slt32 a b = ltb (add32 a (2 ^ 31)) (add32 b (2 ^ 31))

-- `(a ^ b) & SIGN_BIT`.
abbrev pub signs_differ : ℕ → ℕ → Bool
signs_differ a b = if is_negative a then not (is_negative b) else is_negative b
