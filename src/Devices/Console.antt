-- ===== src/Devices/Console.antt =====
-- The console of nachos-3.4/code/machine/console.cc and console.h. What the keyboard has is a parameter of the
-- operation that polls it, and what is shown is a list of bytes.
use n4ch0s.Base.{
  ℕ, ◌+◌, ◌>>=◌, ◌>>◌, assert, if◌then◌else◌, Bool, true, false, not, Option, none, some, List, [],
  ◌∷◌, ◌++◌, ◌==◌,
}
use n4ch0s.Interrupt.{Interrupt, schedule, console_write_int, console_read_int}

abbrev pub console_time : ℕ
console_time = 100

-- `incoming` is a `char`: `none` is EOF.
pub record Console : Type 0 where
  pub read_poll : ℕ
  pub write_done_handler : ℕ
  pub this : ℕ
  pub put_busy : Bool
  pub incoming : Option ℕ
  pub display : List ℕ
  pub chars_read : ℕ
  pub chars_written : ℕ

-- The char that is EOF in `incoming`.
abbrev pub eof : ℕ
eof = 255

unfoldable pub init : (read_poll write_done this : ℕ) → Interrupt → Option (Console × Interrupt)
init read_poll write_done this s = schedule s read_poll this console_time console_read_int >>= λ s'.
    some (
      record {
        read_poll = read_poll;
        write_done_handler = write_done;
        this = this;
        put_busy = false;
        incoming = none;
        display = [];
        chars_read = 0;
        chars_written = 0;
      },
      s',
    )

-- A byte as it is kept in `incoming`.
abbrev pub buffered : ℕ → Option ℕ
buffered ch = if ch == eof then none else some ch

-- `CheckCharAvail`, with the next byte of the keyboard, if any: whether it calls the read handler.
unfoldable pub check_char_avail :
    Console → Interrupt → Option ℕ → Option (Console × Interrupt × Bool)
check_char_avail c s key = schedule s c.read_poll c.this console_time console_read_int >>= λ s'.
    let read : Console × Interrupt × Bool = elim key [
      | none ↦ (c, s', false)
      | some ch ↦ (record c { incoming = buffered ch; chars_read = c.chars_read + 1 }, s', true)
    ] in
    elim c.incoming [ none ↦ some read | some ch ↦ some (c, s', false) ]

-- `WriteDone`; it calls the write handler.
unfoldable pub write_done : Console → Console
write_done c = record c { put_busy = false; chars_written = c.chars_written + 1 }

-- `GetChar`: `none` is EOF.
unfoldable pub get_char : Console → Option ℕ × Console
get_char c = (c.incoming, record c { incoming = none })

unfoldable pub put_char : Console → Interrupt → ℕ → Option (Console × Interrupt)
put_char c s ch =
    assert (not c.put_busy)
    >> (schedule s c.write_done_handler c.this console_time console_write_int >>= λ s'.
        some (record c { display = c.display ++ (ch ∷ []); put_busy = true }, s'))
