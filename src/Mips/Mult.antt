-- ===== src/Mips/Mult.antt =====
-- `Mult` of nachos-3.4/code/machine/mipssim.cc: a product of two words by shifts and adds.
pub mod Product
pub mod Signed
use n4ch0s.Base.{ℕ, ◌+◌, ◌-◌, ◌%◌, ◌&&◌, ◌||◌, ◌==◌, if◌then◌else◌, zero, suc, Bool, ltb}
use n4ch0s.Mips.Word.{add32, sra32, signs_differ, shl32, not32, is_negative, neg32}

-- The variables of the loop.
pub record Acc : Type 0 where
  pub a : ℕ
  pub b_lo : ℕ
  pub b_hi : ℕ
  pub lo : ℕ
  pub hi : ℕ

-- The sum when the low bit of `a` is set: with the carry out of the low word.
abbrev pub added : Acc → Acc
added s =
    let lo' = add32 s.lo s.b_lo in
    let hi' = if ltb lo' s.b_lo then add32 s.hi 1 else s.hi in
    record s { lo = lo'; hi = add32 hi' s.b_hi }

-- The shifts at the end of a round; `|= 1` is on a word that was just doubled.
abbrev pub shifted : Acc → Acc
shifted s = record s {
  a = sra32 s.a 1;
  b_lo = shl32 s.b_lo 1;
  b_hi = shl32 s.b_hi 1 + (if is_negative s.b_lo then 1 else 0);
}

-- `for (i = 0; i < 32; i++)`, with `n` rounds left.
unfoldable pub mult_loop : ℕ → Acc → Acc
mult_loop zero s = s
mult_loop (suc n) s =
    let rest = mult_loop n (shifted (added s)) in
    let skip = mult_loop n (shifted s) in
    if s.a % 2 == 1 then (if s.a - s.a % 2 == 0 then added s else rest) else skip

-- The two's complement of the double word.
abbrev pub negated : Acc → Acc
negated s =
    let lo' = add32 (not32 s.lo) 1 in
    record s { lo = lo'; hi = if lo' == 0 then add32 (not32 s.hi) 1 else not32 s.hi }

abbrev pub start : ℕ → ℕ → Acc
start a b = record { a = a; b_lo = b; b_hi = 0; lo = 0; hi = 0 }

-- The words `*hiPtr` and `*loPtr`.
unfoldable pub mult : (a b : ℕ) → Bool → ℕ × ℕ
mult a b signed_arith =
    let negative = signed_arith && signs_differ a b in
    let a' = if signed_arith && is_negative a then neg32 a else a in
    let b' = if signed_arith && is_negative b then neg32 b else b in
    let s = mult_loop 32 (start a' b') in
    let t = if negative then negated s else s in
    if (a == 0) || (b == 0) then (0, 0) else (t.hi, t.lo)
