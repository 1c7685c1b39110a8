-- ===== src/Syscalls/Files.antt =====
-- `SC_Create`, `SC_Open`, `SC_Close`, `SC_Read` and `SC_Write` of nachos-3.4/code/userprog/exception.cc, with
-- the file system on the host's files of nachos-3.4/code/filesys/filesys.h and openfile.h.
use n4ch0s.Base.{
  ℕ, ◌+◌, ◌==◌, ◌||◌, ◌∷◌, ◌++◌, zero, suc, List, [], Option, none, some, Bool, true, false,
  if◌then◌else◌, get_elem?, set, length, take, drop, leb,
}
use n4ch0s.Base.Int.{ℤ, pos, negsuc, ◌+ℤ◌, ◌-ℤ◌}
use n4ch0s.Mips.Word.{is_negative}
use n4ch0s.Syscalls.{
  System, Call, OpenFile, done, pure, undefined, read_reg, set_reg, ◌>>=◌, ◌>>◌, from_int, text,
  minus_one,
}
use n4ch0s.Syscalls.Transfer.{user_to_system, system_to_user}
use n4ch0s.Syscalls.Console.{read, write}
use n4ch0s.Syscalls.Numbers.{read_int}

-- The host's files, by the calls of nachos-3.4/code/machine/sysdep.cc: each takes the state of the files
-- and returns the next one.
pub record Host : Type 0 where
  pub open_for_write : List ℕ → ℕ → ℤ × ℕ
  pub open_for_read_write : List ℕ → ℕ → ℤ × ℕ
  pub close : (file host : ℕ) → ℕ
  pub lseek : (file : ℕ) → ℤ → (host : ℕ) → ℕ
  pub read_partial : (file num_bytes host : ℕ) → ℤ × List ℕ × ℕ
  pub write_file : (file : ℕ) → List ℕ → (host : ℕ) → ℕ
  pub tell : (file host : ℕ) → ℤ × ℕ

abbrev set_host : System → ℕ → System
set_host s h = record s { host = h }

-- `openf[id]`; `none` is an access outside the table.
unfoldable pub slot : ℕ → Call (Option OpenFile)
slot id s = elim (get_elem? s.openf id) [ none ↦ none | some f ↦ some (done f s) ]

unfoldable pub put_slot : ℕ → Option OpenFile → Call (Unit {0})
put_slot id f s = some (done tt (record s { openf = set s.openf id f }))

-- `FindFreeSlot`: the first free place from 2 on.
unfoldable pub free_slot_from : List (Option OpenFile) → ℕ → ℤ
free_slot_from [] i = negsuc 0
free_slot_from (none ∷ fs) i = pos i
free_slot_from (some f ∷ fs) i = free_slot_from fs (i + 1)

unfoldable pub find_free_slot : List (Option OpenFile) → ℤ
find_free_slot openf = free_slot_from (drop 2 openf) 2

-- A buffer whose first bytes are overwritten by those that were read.
unfoldable pub overwritten : List ℕ → List ℕ → List ℕ
overwritten buf bytes = bytes ++ drop (length bytes) buf

abbrev pub positive : ℤ → Bool
positive (pos zero) = false
positive (pos (suc n)) = true
positive (negsuc n) = false

-- `openf[id]` where it is used as a pointer to a file.
unfoldable pub file_at : ℕ → Call OpenFile
file_at id = slot id >>= λ f. elim f [ none ↦ undefined | some o ↦ pure o ]

unfoldable pub free_place : Call ℤ
free_place s = some (done (find_free_slot s.openf) s)

-- The characters of a buffer up to a 0 or a line feed, and a line feed: the index where it ends.
unfoldable pub write_until_end : List ℕ → ℕ → Call ℕ
write_until_end [] i = undefined
write_until_end (c ∷ cs) i =
    let rest = write (c ∷ []) 1 >>= λ w. write_until_end cs (i + 1) in
    let ended = write (10 ∷ []) 1 >>= λ w. pure i in if (c == 0) || (c == 10) then ended else rest

module _ (host : Host) where
  -- `FileSystem::Create` and `Open`.
  unfoldable pub create_file : List ℕ → Call Bool
  create_file name s =
      let (fd, h) = host.open_for_write name s.host in
      elim fd [
        | negsuc n ↦ some (done false (set_host s h))
        | pos file ↦ some (done true (set_host s (host.close file h)))
      ]

  unfoldable pub open_file : List ℕ → ℕ → Call (Option OpenFile)
  open_file name kind s =
      let (fd, h) = host.open_for_read_write name s.host in
      elim fd [
        | negsuc n ↦ some (done none (set_host s h))
        | pos file ↦ some (
            done (some (record { kind = kind; file = file; current_offset = pos 0 }))
              (set_host s h))
      ]

  -- `delete openf[id]`.
  unfoldable pub close_file : OpenFile → Call (Unit {0})
  close_file f s = some (done tt (set_host s (host.close f.file s.host)))

  -- `openf[id]->GetCurrentPos()`.
  unfoldable pub current_pos : ℕ → Call ℤ
  current_pos id = file_at id >>= λ f. λ s.
      let (p, h) = host.tell f.file s.host in
      let f' : OpenFile = record f { current_offset = p } in
      some (done p (record s { openf = set s.openf id (some f'); host = h }))

  -- `openf[id]->Read(buf, num_bytes)`: the count and the buffer.
  unfoldable pub read_file : ℕ → List ℕ → ℕ → Call (ℤ × List ℕ)
  read_file id buf num_bytes = file_at id >>= λ f. λ s.
      let sought = host.lseek f.file f.current_offset s.host in
      let (num_read, bytes, h) = host.read_partial f.file num_bytes sought in
      let f' : OpenFile = record f { current_offset = f.current_offset +ℤ num_read } in
      some (
        done (num_read, overwritten buf bytes)
          (record s { openf = set s.openf id (some f'); host = h }))

  -- `openf[id]->Write(buf, num_bytes)`, whose result is the number of bytes that it was given.
  unfoldable pub write_bytes : ℕ → List ℕ → ℕ → Call ℤ
  write_bytes id buf num_bytes = file_at id >>= λ f. λ s.
      let sought = host.lseek f.file f.current_offset s.host in
      let h = host.write_file f.file (take num_bytes buf) sought in
      let f' : OpenFile = record f { current_offset = f.current_offset +ℤ pos num_bytes } in
      some (done (pos num_bytes) (record s { openf = set s.openf id (some f'); host = h }))

  unfoldable pub sc_create : Call (Unit {0})
  sc_create = read_reg 4 >>= λ virt_addr. user_to_system virt_addr 33 >>= λ file_name.
      create_file (text file_name) >>= λ created.
      if created then set_reg 2 0 else set_reg 2 minus_one

  -- `SC_Open` with a free place: where the file cannot be opened the register 2 stays.
  unfoldable pub open_at : ℕ → List ℕ → ℕ → Call (Unit {0})
  open_at free_slot name kind =
      let open_it = open_file name kind >>= λ f.
      put_slot free_slot f >> elim f [ none ↦ pure tt | some o ↦ set_reg 2 free_slot ] in
      if (kind == 0) || (kind == 1) then open_it else if kind == 2 then set_reg 2 0 else set_reg 2 1

  unfoldable pub sc_open : Call (Unit {0})
  sc_open = read_reg 4 >>= λ virt_addr. read_reg 5 >>= λ kind.
      user_to_system virt_addr 32 >>= λ name. free_place >>= λ place. elim place [
        | negsuc n ↦ set_reg 2 minus_one
        | pos free_slot ↦ open_at free_slot (text name) kind
      ]

  -- `fid >= 0 && fid <= 14` holds for the patterns up to 14.
  unfoldable pub sc_close : Call (Unit {0})
  sc_close = read_reg 4 >>= λ fid.
      let close_it = slot fid >>= λ f. elim f [
        | none ↦ set_reg 2 minus_one
        | some o ↦ close_file o >> put_slot fid none >> set_reg 2 0
      ] in
      if leb fid 14 then close_it else set_reg 2 minus_one

  -- `SC_Read` from the console, and from a file.
  unfoldable pub read_line_to : (virt_addr charcount : ℕ) → Call (Unit {0})
  read_line_to virt_addr charcount = read charcount >>= λ (size, buf).
      system_to_user virt_addr size buf >>= λ r. set_reg 2 (from_int size)

  unfoldable pub read_file_to : (id virt_addr charcount : ℕ) → ℤ → List ℕ → Call (Unit {0})
  read_file_to id virt_addr charcount old_pos buf = read_file id buf charcount >>= λ (count, bytes).
      let deliver = current_pos id >>= λ new_pos.
      system_to_user virt_addr (new_pos -ℤ old_pos) bytes >>= λ r.
      set_reg 2 (from_int (new_pos -ℤ old_pos)) in
      if positive count then deliver else set_reg 2 (from_int (negsuc 1))

  -- A negative count is not followed further: the buffer has no size then.
  unfoldable pub read_opened : (id virt_addr charcount : ℕ) → OpenFile → Call (Unit {0})
  read_opened id virt_addr charcount f =
      let get = current_pos id >>= λ old_pos.
      (if is_negative charcount then undefined else user_to_system virt_addr charcount) >>= λ buf.
      (if f.kind == 2
        then read_line_to virt_addr charcount
        else read_file_to id virt_addr charcount old_pos buf) in
      if f.kind == 3 then set_reg 2 minus_one else get

  unfoldable pub sc_read : Call (Unit {0})
  sc_read = read_reg 4 >>= λ virt_addr. read_reg 5 >>= λ charcount. read_reg 6 >>= λ id.
      let look = slot id >>= λ f. elim f [
        | none ↦ set_reg 2 minus_one
        | some o ↦ read_opened id virt_addr charcount o
      ] in
      if leb id 14 then look else set_reg 2 minus_one

  -- `SC_Write` to a file of the type 0, and to the console; a file of the type 0 of which nothing is
  -- written falls through to `SC_ReadInt`, the case that follows.
  unfoldable pub write_opened : (id virt_addr charcount : ℕ) → OpenFile → Call (Unit {0})
  write_opened id virt_addr charcount f =
      let to_file : ℤ → List ℕ → Call (Unit {0}) = λ old_pos buf.
        write_bytes id buf charcount >>= λ count.
        let wrote = current_pos id >>= λ new_pos. set_reg 2 (from_int (new_pos -ℤ old_pos)) in
        if positive count then wrote else read_int in
      let to_console : List ℕ → Call (Unit {0}) =
        λ buf. write_until_end buf 0 >>= λ i. set_reg 2 (from_int (pos i -ℤ pos 1)) in
      let put = current_pos id >>= λ old_pos.
      (if is_negative charcount then undefined else user_to_system virt_addr charcount) >>= λ buf.
      (if f.kind == 0
        then to_file old_pos buf
        else if f.kind == 3
        then to_console buf
        else read_int) in
      if (f.kind == 1) || (f.kind == 2) then set_reg 2 minus_one else put

  unfoldable pub sc_write : Call (Unit {0})
  sc_write = read_reg 4 >>= λ virt_addr. read_reg 5 >>= λ charcount. read_reg 6 >>= λ id.
      let look = slot id >>= λ f. elim f [
        | none ↦ set_reg 2 minus_one
        | some o ↦ write_opened id virt_addr charcount o
      ] in
      if leb id 14 then look else set_reg 2 minus_one
