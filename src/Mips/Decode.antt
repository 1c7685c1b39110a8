-- ===== src/Mips/Decode.antt =====
-- `Instruction::Decode` of nachos-3.4/code/machine/mipssim.cc with the tables of mipssim.h.
pub mod Fields
use n4ch0s.Base.{ℕ, ◌+◌, ◌*◌, ◌/◌, ◌%◌, ◌^◌, ◌∷◌, ◌==◌, if◌then◌else◌, List, [], get_or, ltb}

-- The operation codes, with the two codes that lead to a further table.
pub data OpCode : Type 0 where
  op_add op_addi op_addiu op_addu op_and op_andi op_beq op_bgez op_bgezal : OpCode
  op_bgtz op_blez op_bltz op_bltzal op_bne op_div op_divu op_j op_jal op_jalr : OpCode
  op_jr op_lb op_lbu op_lh op_lhu op_lui op_lw op_lwl op_lwr op_mfhi op_mflo : OpCode
  op_mthi op_mtlo op_mult op_multu op_nor op_or op_ori op_rfe op_sb op_sh op_sll : OpCode
  op_sllv op_slt op_slti op_sltiu op_sltu op_sra op_srav op_srl op_srlv op_sub : OpCode
  op_subu op_sw op_swl op_swr op_xor op_xori op_syscall op_unimp op_res : OpCode
  special bcond : OpCode

pub data Format : Type 0 where
  ifmt jfmt rfmt : Format

pub record OpInfo : Type 0 where
  pub op_code : OpCode
  pub format : Format

abbrev pub info : OpCode → Format → OpInfo
info c f = record { op_code = c; format = f }

-- The codes in IFMT, in a row.
abbrev pub ifmts : List OpCode → List OpInfo → List OpInfo
ifmts [] rest = rest
ifmts (c ∷ cs) rest = info c ifmt ∷ ifmts cs rest

unfoldable pub op_table : List OpInfo
op_table =
    info special rfmt
    ∷ info bcond ifmt
    ∷ info op_j jfmt
    ∷ info op_jal jfmt
    ∷ ifmts
        (op_beq ∷ op_bne ∷ op_blez ∷ op_bgtz ∷ op_addi ∷ op_addiu ∷ op_slti ∷ op_sltiu ∷ op_andi
          ∷ op_ori ∷ op_xori ∷ op_lui ∷ op_unimp ∷ op_unimp ∷ op_unimp ∷ op_unimp ∷ op_res ∷ op_res
          ∷ op_res ∷ op_res ∷ op_res ∷ op_res ∷ op_res ∷ op_res ∷ op_res ∷ op_res ∷ op_res ∷ op_res
          ∷ op_lb ∷ op_lh ∷ op_lwl ∷ op_lw ∷ op_lbu ∷ op_lhu ∷ op_lwr ∷ op_res ∷ op_sb ∷ op_sh
          ∷ op_swl ∷ op_sw ∷ op_res ∷ op_res ∷ op_swr ∷ op_res ∷ op_unimp ∷ op_unimp ∷ op_unimp
          ∷ op_unimp ∷ op_res ∷ op_res ∷ op_res ∷ op_res ∷ op_unimp ∷ op_unimp ∷ op_unimp ∷ op_unimp
          ∷ op_res ∷ op_res ∷ op_res ∷ op_res ∷ [])
        []

unfoldable pub special_table : List OpCode
special_table =
    op_sll ∷ op_res ∷ op_srl ∷ op_sra ∷ op_sllv ∷ op_res ∷ op_srlv ∷ op_srav ∷ op_jr ∷ op_jalr
    ∷ op_res ∷ op_res ∷ op_syscall ∷ op_unimp ∷ op_res ∷ op_res ∷ op_mfhi ∷ op_mthi ∷ op_mflo
    ∷ op_mtlo ∷ op_res ∷ op_res ∷ op_res ∷ op_res ∷ op_mult ∷ op_multu ∷ op_div ∷ op_divu ∷ op_res
    ∷ op_res ∷ op_res ∷ op_res ∷ op_add ∷ op_addu ∷ op_sub ∷ op_subu ∷ op_and ∷ op_or ∷ op_xor
    ∷ op_nor ∷ op_res ∷ op_res ∷ op_slt ∷ op_sltu ∷ op_res ∷ op_res ∷ op_res ∷ op_res ∷ op_res
    ∷ op_res ∷ op_res ∷ op_res ∷ op_res ∷ op_res ∷ op_res ∷ op_res ∷ op_res ∷ op_res ∷ op_res
    ∷ op_res ∷ op_res ∷ op_res ∷ op_res ∷ op_res ∷ []

-- `Instruction`. The array indices below are under 64, so the defaults are not used.
pub record Instruction : Type 0 where
  pub op_code : OpCode
  pub rs : ℕ
  pub rt : ℕ
  pub rd : ℕ
  pub extra : ℕ

unfoldable pub decode_extra : Format → ℕ → ℕ
decode_extra ifmt value =
    let extra = value % 2 ^ 16 in if ltb extra 0x8000 then extra else extra + 0xffff_0000
decode_extra rfmt value = value / 2 ^ 6 % 2 ^ 5
decode_extra jfmt value = value % 2 ^ 26

branch_code : ℕ → OpCode
branch_code i =
    if i == 0
    then op_bltz
    else if i == 0x10000
    then op_bgez
    else if i == 0x100000
    then op_bltzal
    else if i == 0x110000
    then op_bgezal
    else op_unimp

-- SPECIAL goes on by the low six bits, BCOND by the bits of the `rt` field.
unfoldable pub decode_op : OpCode → ℕ → OpCode
unfolding special_table branch_code
decode_op special value = get_or special_table (value % 2 ^ 6) op_res
decode_op bcond value = branch_code (value / 2 ^ 16 % 2 ^ 5 * 2 ^ 16)
decode_op op value = op

unfoldable pub decode : ℕ → Instruction
unfolding op_table decode_extra decode_op
decode value =
    let entry = get_or op_table (value / 2 ^ 26 % 2 ^ 6) (info op_res ifmt) in
    record {
      op_code = decode_op entry.op_code value;
      rs = value / 2 ^ 21 % 2 ^ 5;
      rt = value / 2 ^ 16 % 2 ^ 5;
      rd = value / 2 ^ 11 % 2 ^ 5;
      extra = decode_extra entry.format value;
    }
