-- ===== src/Syscalls/Console.antt =====
-- `SynchConsole` of nachos-3.4/code/threads/synchcons.cc, as the thread that holds the line sees it: the
-- semaphores let the calls of threads pass one after another, and the handlers of the device let the
-- thread go on after each character. A character is a number below 256.
use n4ch0s.Base.{
  ℕ, ◌+◌, ◌==◌, ◌∷◌, ◌++◌, zero, suc, List, [], Option, none, some, if◌then◌else◌, get_elem?, set,
  replicate,
}
use n4ch0s.Base.Int.{ℤ, pos, negsuc}
use n4ch0s.Syscalls.{Call, done, waits}

-- `EOF` as a `char`.
abbrev pub eof : ℕ
eof = 255

-- The line read: how `loop` ended or -1, the buffer, and what is still to be typed.
pub data Line : Type 0 where
  line : (result : ℤ) → List ℕ → List ℕ → Line
  no_key : Line

-- The loops of `Read`: at most `n` more characters, of which the next goes to `into[loop]`. A line feed
-- ends the line, and so does 1, which gives the result -1. A line of `n` characters leaves its end.
unfoldable pub read_line : List ℕ → (n loop : ℕ) → List ℕ → Line
read_line typed zero loop into = line (pos loop) into typed
read_line [] (suc n) loop into = no_key
read_line (ch ∷ typed) (suc n) loop into =
    let again = read_line typed (suc n) loop into in
    let next = read_line typed n (loop + 1) (set into loop ch) in
    if ch == eof
    then again
    else if ch == 10
    then line (pos loop) into typed
    else if ch == 1
    then line (negsuc 0) into typed
    else next

-- `Read` into a buffer of `num_bytes`, which is cleared first: the result and the buffer.
unfoldable pub read : ℕ → Call (ℤ × List ℕ)
read num_bytes s = elim (read_line s.typed num_bytes 0 (replicate num_bytes 0)) [
  | line result into typed ↦ some (done (result, into) (record s { typed = typed }))
  | no_key ↦ some (waits s)
]

-- The loop of `Write`: the bytes from `loop` on; `none` is a read outside the buffer.
unfoldable pub write_loop : List ℕ → (n loop : ℕ) → List ℕ → Option (List ℕ)
write_loop from zero loop shown = some shown
write_loop from (suc n) loop shown = elim (get_elem? from loop) [
  | none ↦ none
  | some ch ↦ write_loop from n (loop + 1) (shown ++ (ch ∷ []))
]

-- `Write`, with its result.
unfoldable pub write : List ℕ → ℕ → Call ℕ
write from num_bytes s = elim (write_loop from num_bytes 0 s.shown) [
  | none ↦ none
  | some shown ↦ some (done num_bytes (record s { shown = shown }))
]
