-- ===== src/AddrSpace.antt =====
-- `AddrSpace` of nachos-3.4/code/userprog/addrspace.cc, on a little-endian host, where `WordToHost` is the
-- identity and `SwapHeader` is never called.
pub mod Isolation
mod Tests
use n4ch0s.Base.{
  ℕ, ◌+◌, ◌-◌, ◌*◌, ◌%◌, ◌^◌, ◌==◌, ◌>>=◌, ◌>>◌, ◌∷◌, zero, suc, List, [], Option, none, some, true,
  false, if◌then◌else◌, assert, ltb, leb, length, get_elem?, ◌&&◌,
}
use n4ch0s.Base.Int.{pos, negsuc}
use n4ch0s.BitMap.{BitMap, find, num_clear, div_round_up}
use n4ch0s.Machine.{
  Machine, TranslationEntry, page_size, num_total_regs, memory_size, write_register, pc_reg,
  next_pc_reg, stack_reg,
}

pub record Segment : Type 0 where
  pub virtual_addr : ℕ
  pub in_file_addr : ℕ
  pub size : ℕ

pub record NoffHeader : Type 0 where
  pub noff_magic : ℕ
  pub code : Segment
  pub init_data : Segment
  pub uninit_data : Segment

pub record AddrSpace : Type 0 where
  pub page_table : List TranslationEntry
  pub num_pages : ℕ

abbrev pub noff_magic_number : ℕ
noff_magic_number = 0xbadfad

abbrev pub user_stack_size : ℕ
user_stack_size = 1024

-- A 32-bit word of a file, and the header as it stands there; `none` where the file is too short.
abbrev pub word_of : List ℕ → ℕ → Option ℕ
word_of bytes i = get_elem? bytes i >>= λ a. get_elem? bytes (i + 1) >>= λ b.
    get_elem? bytes (i + 2) >>= λ c.
    get_elem? bytes (i + 3) >>= λ d. some (a + 2 ^ 8 * b + 2 ^ 16 * c + 2 ^ 24 * d)

abbrev pub segment_of : List ℕ → ℕ → Option Segment
segment_of bytes i = word_of bytes i >>= λ v. word_of bytes (i + 4) >>= λ f.
    word_of bytes (i + 8) >>= λ n. some (record { virtual_addr = v; in_file_addr = f; size = n })

unfoldable pub header_of : List ℕ → Option NoffHeader
header_of bytes = word_of bytes 0 >>= λ m. segment_of bytes 4 >>= λ c. segment_of bytes 16 >>= λ i.
    segment_of bytes 28 >>= λ u.
    some (record { noff_magic = m; code = c; init_data = i; uninit_data = u })

-- `bzero` of a page: `none` outside the memory.
abbrev pub zeroed : (ℕ → ℕ) → ℕ → ℕ → ℕ
zeroed mem base a = if leb base a && ltb a (base + page_size) then 0 else mem a

unfoldable pub clear_page : (ℕ → ℕ) → ℕ → Option (ℕ → ℕ)
clear_page mem frame =
    assert (leb (frame * page_size + page_size) memory_size)
    >> some (zeroed mem (frame * page_size))

-- What the constructor works on: the memory of the machine and `gPhysPageBitMap`.
pub record Frames : Type 0 where
  pub memory : ℕ → ℕ
  pub free : BitMap

-- An entry of the page table that the loop fills in.
unfoldable pub mapping : (virtual_page physical_page : ℕ) → TranslationEntry
mapping virtual_page physical_page = record {
  virtual_page = virtual_page;
  physical_page = physical_page;
  valid = true;
  read_only = false;
  used = false;
  dirty = false;
}

-- The loop that gives each of `n` pages from `i` on a frame, cleared.
unfoldable pub allocate_pages : (n i : ℕ) → Frames → Option (List TranslationEntry × Frames)
allocate_pages zero i f = some ([], f)
allocate_pages (suc n) i f = find f.free >>= λ (r, b). elim r [
  | negsuc m ↦ none
  | pos k ↦ clear_page f.memory k >>= λ mem.
      allocate_pages n (i + 1) (record { memory = mem; free = b }) >>= λ (table, f').
      some (mapping i k ∷ table, f')
]

-- `executable->ReadAt` into the memory: `none` outside of it. The file gives the bytes that are there.
unfoldable pub put_bytes : (ℕ → ℕ) → ℕ → List ℕ → ℕ → ℕ
put_bytes mem a [] = mem
put_bytes mem a (x ∷ xs) = let rest = put_bytes mem (a + 1) xs in λ j. if a == j then x else rest j

unfoldable pub load : (ℕ → ℕ → List ℕ) → (ℕ → ℕ) → (addr num_bytes position : ℕ) → Option (ℕ → ℕ)
load read_at mem addr num_bytes position =
    let bytes = read_at num_bytes position in
    assert (leb (addr + length bytes) memory_size) >> some (put_bytes mem addr bytes)

abbrev pub frame_at : List TranslationEntry → ℕ → Option ℕ
frame_at table i = get_elem? table i >>= λ e. some (e.physical_page * page_size)

-- The sizes of the pages that hold code and data. The differences are unsigned in the source: with no
-- code, the last page of code counts as full.
abbrev pub last_page_size : ℕ → ℕ
last_page_size size = size + page_size - div_round_up size page_size * page_size

module _ (read_at : ℕ → ℕ → List ℕ) (h : NoffHeader) (table : List TranslationEntry) where
  -- The loops over the `n` pages of code from `i` on, and over the `n` pages of data from `j` on, which
  -- stand from the page `i` on.
  unfoldable pub load_code : (n i : ℕ) → (ℕ → ℕ) → Option (ℕ → ℕ)
  load_code zero i mem = some mem
  load_code (suc n) i mem =
      let bytes = if n == 0 then last_page_size h.code.size else page_size in
      let next = frame_at table i >>= λ base.
      load read_at mem (h.code.virtual_addr + base) bytes (h.code.in_file_addr + i * page_size)
      >>= λ mem'. load_code n (i + 1) mem' in
      let skip = load_code n (i + 1) mem in if ltb 0 h.code.size then next else skip

  unfoldable pub load_data : (first last n i j : ℕ) → (ℕ → ℕ) → Option (ℕ → ℕ)
  load_data first last zero i j mem = some mem
  load_data first last (suc n) i j mem =
      let bytes = if n == 0 then last else page_size in
      let next = frame_at table i >>= λ base.
      load read_at mem (h.code.virtual_addr + base) bytes
        (h.init_data.in_file_addr + j * page_size + first)
      >>= λ mem'. load_data first last n (i + 1) (j + 1) mem' in
      let skip = load_data first last n (i + 1) (j + 1) mem in
      if ltb 0 h.init_data.size then next else skip

  -- The first part of the data shares the last page of the code, where that is not full.
  unfoldable pub load_shared : (code_pages first : ℕ) → (ℕ → ℕ) → Option (ℕ → ℕ)
  load_shared code_pages first mem =
      let last = last_page_size h.code.size in
      let shared = frame_at table (code_pages - 1) >>= λ base.
      load read_at mem (h.code.virtual_addr + (base + last)) first h.init_data.in_file_addr in
      if ltb last page_size && ltb 0 first then shared else some mem

  unfoldable pub load_program : (ℕ → ℕ) → Option (ℕ → ℕ)
  load_program mem =
      let code_pages = div_round_up h.code.size page_size in
      let room = page_size - last_page_size h.code.size in
      let rest = h.init_data.size - room in
      let small = ltb h.init_data.size room in
      let first = if small then h.init_data.size else room in
      let data_pages = if small then 0 else div_round_up rest page_size in
      load_code code_pages 0 mem >>= λ coded. load_shared code_pages first coded >>= λ shared.
      load_data first (last_page_size rest) data_pages code_pages 0 shared

-- The constructor: the file is not there, or there are too few frames, or the space is made.
pub data Made : Type 0 where
  no_file : Made
  no_memory : Made
  made : AddrSpace → Made

-- `numPages`.
abbrev pub pages_needed : NoffHeader → ℕ
pages_needed h =
    div_round_up ((h.code.size + h.init_data.size + h.uninit_data.size + user_stack_size) % 2 ^ 32)
      page_size

unfoldable pub build : (ℕ → ℕ → List ℕ) → NoffHeader → Frames → Option (Made × Frames)
build read_at h f =
    let space = allocate_pages (pages_needed h) 0 f >>= λ (table, f').
    load_program read_at h table f'.memory >>= λ mem. some (
      made (record { page_table = table; num_pages = pages_needed h }),
      record f' { memory = mem },
    ) in
    num_clear f.free >>= λ free. if ltb free (pages_needed h) then some (no_memory, f) else space

unfoldable pub create_space : Option (ℕ → ℕ → List ℕ) → Frames → Option (Made × Frames)
create_space none f = some (no_file, f)
create_space (some read_at) f = header_of (read_at 40 0) >>= λ h.
    assert (h.noff_magic == noff_magic_number) >> build read_at h f

-- `InitRegisters`: the loop over the registers, and the start of the program.
unfoldable pub zero_registers : (n i : ℕ) → Machine → Option Machine
zero_registers zero i m = some m
zero_registers (suc n) i m = write_register m i 0 >>= λ m'. zero_registers n (i + 1) m'

unfoldable pub init_registers : AddrSpace → Machine → Option Machine
init_registers a m = zero_registers num_total_regs 0 m >>= λ m₁.
    write_register m₁ pc_reg 0 >>= λ m₂. write_register m₂ next_pc_reg 4 >>= λ m₃.
    write_register m₃ stack_reg ((a.num_pages * page_size + 2 ^ 32 - 16) % 2 ^ 32)
