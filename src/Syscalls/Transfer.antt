-- ===== src/Syscalls/Transfer.antt =====
-- `UserToSystem` and `SystemToUser` of nachos-3.4/code/userprog/exception.cc.
use n4ch0s.Base.{
  ℕ, ◌+◌, ◌%◌, ◌^◌, ◌==◌, zero, suc, List, none, some, if◌then◌else◌, get_elem?, set, replicate,
}
use n4ch0s.Base.Int.{ℤ, pos, negsuc}
use n4ch0s.Machine.Memory.{read_mem, write_mem, trap, Access}
use n4ch0s.Syscalls.{Call, Flow, pure, undefined, halts, ◌>>=◌, ◌>>◌}

-- `machine->ReadMem` and `WriteMem` of one byte: an exception goes to the handler, which halts.
unfoldable pub user_byte : ℕ → Call ℕ
user_byte addr s = elim (read_mem s.machine addr 1) [
  | none ↦ none
  | some access ↦ elim access [
    | Access.done v m ↦ some (Flow.done v (record s { machine = m }))
    | trap e m ↦ some halts
  ]
]

unfoldable pub put_user_byte : ℕ → ℕ → Call (Unit {0})
put_user_byte addr value s = elim (write_mem s.machine addr 1 value) [
  | none ↦ none
  | some access ↦ elim access [
    | Access.done u m ↦ some (Flow.done tt (record s { machine = m }))
    | trap e m ↦ some halts
  ]
]

-- The loop of `UserToSystem`: `n` more characters, the next to `kernel_buf[i]`; `oneChar` is signed, and
-- stored as its low byte.
unfoldable pub fetch_loop : (virt_addr n i : ℕ) → List ℕ → Call (List ℕ)
fetch_loop virt_addr zero i kernel_buf = pure kernel_buf
fetch_loop virt_addr (suc n) i kernel_buf = user_byte ((virt_addr + i) % 2 ^ 32) >>= λ one_char.
    let buf = set kernel_buf i (one_char % 256) in
    let rest = fetch_loop virt_addr n (i + 1) buf in if one_char == 0 then pure buf else rest

-- `UserToSystem`: a buffer of `limit + 1` bytes, cleared before.
unfoldable pub user_to_system : (virt_addr limit : ℕ) → Call (List ℕ)
user_to_system virt_addr limit = fetch_loop virt_addr limit 0 (replicate (limit + 1) 0)

-- The loop of `SystemToUser`, which runs once at least: the number of bytes written. A `char` is
-- widened with its sign, and the memory takes its low byte.
unfoldable pub store_loop : (virt_addr : ℕ) → List ℕ → (n i : ℕ) → Call ℕ
store_loop virt_addr buffer zero i = pure i
store_loop virt_addr buffer (suc n) i = elim (get_elem? buffer i) [
  | none ↦ undefined
  | some one_char ↦
      put_user_byte ((virt_addr + i) % 2 ^ 32) one_char
      >> let rest = store_loop virt_addr buffer n (i + 1) in
        if one_char == 0 then pure (i + 1) else rest
]

unfoldable pub system_to_user : ℕ → ℤ → List ℕ → Call ℤ
system_to_user virt_addr (negsuc n) buffer = pure (negsuc 0)
system_to_user virt_addr (pos len) buffer = store_loop virt_addr buffer len 0 >>= λ i. pure (pos i)
