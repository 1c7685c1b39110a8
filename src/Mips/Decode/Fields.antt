-- ===== src/Mips/Decode/Fields.antt =====
-- `Instruction::Decode` of nachos-3.4/code/machine/mipssim.cc against the formats of the MIPS R2000.
use n4ch0s.Base.{
  ℕ, ◌+◌, ◌-◌, ◌*◌, ◌/◌, ◌%◌, ◌^◌, ◌<◌, ◌≡◌, ◌∙◌, if◌then◌else◌, refl, ap, arith, get_or, ltb,
}
use n4ch0s.Mips.Decode.{
  decode, decode_extra, decode_op, op_table, special_table, ifmt, info, op_res,
}
use n4ch0s.Base.Int.{ℤ, signed32, pos, negsuc}

-- A word in the register format: the operation code 0, and the fields from the high end.
abbrev pub encode_r : (rs rt rd shamt funct : ℕ) → ℕ
encode_r rs rt rd shamt funct = rs * 2 ^ 21 + rt * 2 ^ 16 + rd * 2 ^ 11 + shamt * 2 ^ 6 + funct

-- A word in the immediate format.
abbrev pub encode_i : (op rs rt imm : ℕ) → ℕ
encode_i op rs rt imm = op * 2 ^ 26 + rs * 2 ^ 21 + rt * 2 ^ 16 + imm

-- For fields within their widths, decoding a word in the register format gives the fields back, the
-- shift amount as `extra`, and the operation that the table of special codes has for its last field.
pub decode-encode_r :
    (rs rt rd shamt funct : ℕ)
    → rs < 32
    → rt < 32
    → rd < 32
    → shamt < 32
    → funct < 64
    → decode (encode_r rs rt rd shamt funct) ≡ record {
      op_code = get_or special_table funct op_res;
      rs = rs;
      rt = rt;
      rd = rd;
      extra = shamt;
    }
unfolding decode decode_op decode_extra op_table
decode-encode_r rs rt rd shamt funct a b c d e =
    let v = encode_r rs rt rd shamt funct in
    let top : v / 2 ^ 26 % 2 ^ 6 ≡ 0 = omega arith in
    let f1 : v / 2 ^ 21 % 2 ^ 5 ≡ rs = omega arith in
    let f2 : v / 2 ^ 16 % 2 ^ 5 ≡ rt = omega arith in
    let f3 : v / 2 ^ 11 % 2 ^ 5 ≡ rd = omega arith in
    let f4 : v / 2 ^ 6 % 2 ^ 5 ≡ shamt = omega arith in
    let f5 : v % 2 ^ 6 ≡ funct = omega arith in rw (top, f1, f2, f3, f4, f5) refl

-- The integer of a 16-bit two's complement.
abbrev pub signed16 : ℕ → ℤ
signed16 w = if ltb w (2 ^ 15) then pos w else negsuc (2 ^ 16 - w - 1)

extended : (imm : ℕ) → imm < 2 ^ 16 → signed32 (decode_extra ifmt imm) ≡ signed16 imm
unfolding decode_extra
extended imm h = ground arith

-- For fields within their widths and an operation code that the table gives the immediate format,
-- decoding a word in that format gives the two register fields back, and the immediate operand with its
-- sign.
pub decode-encode_i :
    (op rs rt imm : ℕ)
    → op < 64
    → rs < 32
    → rt < 32
    → imm < 2 ^ 16
    → (get_or op_table op (info op_res ifmt)).format ≡ ifmt
    → ((decode (encode_i op rs rt imm)).rs ≡ rs)
      × ((decode (encode_i op rs rt imm)).rt ≡ rt)
      × (signed32 (decode (encode_i op rs rt imm)).extra ≡ signed16 imm)
unfolding decode decode_extra
decode-encode_i op rs rt imm a b c d f =
    let v = encode_i op rs rt imm in
    let top : v / 2 ^ 26 % 2 ^ 6 ≡ op = omega arith in
    (omega arith, omega arith, rw (top, f) (ap signed32 (same_low op rs rt imm) ∙ extended imm d))
  where
    same_low :
        (op rs rt imm : ℕ) → decode_extra ifmt (encode_i op rs rt imm) ≡ decode_extra ifmt imm
    same_low op rs rt imm =
        let low : encode_i op rs rt imm % 2 ^ 16 ≡ imm % 2 ^ 16 = omega arith in
        ap (λ (t : ℕ). if ltb t 0x8000 then t else t + 0xffff_0000) low
