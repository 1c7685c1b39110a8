-- ===== src/Syscalls/Numbers/Echo.antt =====
-- A number that `SC_PrintInt` of nachos-3.4/code/userprog/exception.cc shows is the one that `SC_ReadInt`
-- reads where it is typed.
use mathlib.Core.List.{append_assoc}
use n4ch0s.Base.{
  ℕ, ◌+◌, ◌-◌, ◌^◌, ◌<◌, ◌≤◌, ◌≡◌, ◌∙◌, ◌∷◌, ◌++◌, zero, suc, List, [], Option, none, some, false,
  refl, ap, sym, arith, length, set, drop, replicate, get_elem?, ◌==◌, length-append, if◌then◌else◌,
}
use n4ch0s.Syscalls.{◌>>=◌, System, done, read_reg, set_reg, Flow, then_flow, pure, waits}
use n4ch0s.Syscalls.Console.{write_loop, read_line, line, eof, read, write, Line, no_key}
use n4ch0s.Syscalls.Numbers.{
  some_invalid, atoi, digits_value, print_int, read_int, count_digits, read_int_of, put_digits,
  answer,
}
use n4ch0s.Syscalls.Numbers.Digits.{
  AllDigits, decimal, count-digits_lem, decimal-AllDigits, put_digits-decimal, length-decimal,
  digits_value-decimal,
}
use n4ch0s.Base.Int.{pos, ℤ}
use mathlib.Core.Path.{ap₂}
use n4ch0s.Machine.{write_reg}
use n4ch0s.Mips.Word.{is_negative}

append_nil : (l : List ℕ) → l ++ [] ≡ l
append_nil [] = refl
append_nil (x ∷ l) = ap (λ t. x ∷ t) (append_nil l)

get_elem?-append :
    (pre : List ℕ) (x : ℕ) (xs : List ℕ) → get_elem? (pre ++ (x ∷ xs)) (length pre) ≡ some x
get_elem?-append [] x xs = refl
get_elem?-append (y ∷ pre) x xs = get_elem?-append pre x xs

write_loop-byte :
    (from : List ℕ) (x n loop : ℕ) (shown : List ℕ)
    → get_elem? from loop ≡ some x
    → write_loop from (suc n) loop shown ≡ write_loop from n (loop + 1) (shown ++ (x ∷ []))
unfolding write_loop
write_loop-byte from x n loop shown h =
    ap
      (λ (o : Option ℕ). elim o [
        | none ↦ none
        | some ch ↦ write_loop from n (loop + 1) (shown ++ (ch ∷ []))
      ])
      h

-- The bytes from `loop` on are shown.
write_loop-all :
    (pre xs ys shown : List ℕ)
    → write_loop (pre ++ (xs ++ ys)) (length xs) (length pre) shown ≡ some (shown ++ xs)
unfolding write_loop
write_loop-all pre [] ys shown = ap some (sym (append_nil shown))
write_loop-all pre (x ∷ xs) ys shown =
    write_loop-byte (pre ++ (x ∷ (xs ++ ys))) x (length xs) (length pre) shown
      (get_elem?-append pre x (xs ++ ys))
    ∙ ap₂ (λ l i. write_loop l (length xs) i (shown ++ (x ∷ [])))
        (sym (append_assoc pre (x ∷ []) (xs ++ ys))) (omega (arith, length-append pre (x ∷ [])))
    ∙ write_loop-all (pre ++ (x ∷ [])) xs ys (shown ++ (x ∷ []))
    ∙ ap some (append_assoc shown (x ∷ []) xs)

set-append :
    (pre : List ℕ) (x y : ℕ) (ys : List ℕ) → set (pre ++ (y ∷ ys)) (length pre) x ≡ pre ++ (x ∷ ys)
set-append [] x y ys = refl
set-append (z ∷ pre) x y ys = ap (λ l. z ∷ l) (set-append pre x y ys)

read_line-key :
    (x n loop : ℕ) (typed into : List ℕ)
    → 48 ≤ x
    → x ≤ 57
    → read_line (x ∷ typed) (suc n) loop into ≡ read_line typed n (loop + 1) (set into loop x)
unfolding read_line
read_line-key x n loop typed into h g =
    let not_end : (x == eof) ≡ false = ground arith in
    let not_feed : (x == 10) ≡ false = ground arith in
    let not_one : (x == 1) ≡ false = ground arith in rw (not_end, not_feed, not_one) refl

-- A line of digits that is shorter than the room.
read_line-digits :
    (pre xs rest : List ℕ) (n : ℕ)
    → AllDigits xs
    → length xs ≤ n
    → read_line (xs ++ (10 ∷ rest)) (suc n) (length pre) (pre ++ replicate (suc n) 0)
      ≡ line (pos (length pre + length xs)) (pre ++ (xs ++ replicate (suc n - length xs) 0)) rest
unfolding read_line
read_line-digits pre [] rest n w h =
    let room : suc n ≡ suc n - 0 = omega arith in
    let ended : length pre ≡ length pre + 0 = omega arith in
    ap₂ (λ z m. line (pos z) (pre ++ replicate m 0) rest) ended room
read_line-digits pre (x ∷ xs) rest zero w h = absurd (omega arith)
read_line-digits pre (x ∷ xs) rest (suc n) w h =
    let more : List ℕ = pre ++ (x ∷ []) in
    let moved : length pre + 1 ≡ length more = omega (arith, length-append pre (x ∷ [])) in
    read_line-key x (suc n) (length pre) (xs ++ (10 ∷ rest)) (pre ++ replicate (suc (suc n)) 0) w.0
      w.1
    ∙ ap₂ (λ i l. read_line (xs ++ (10 ∷ rest)) (suc n) i l) moved
        (set-append pre x 0 (replicate (suc n) 0)
          ∙ sym (append_assoc pre (x ∷ []) (replicate (suc n) 0)))
    ∙ read_line-digits more xs rest n w.2 (omega arith)
    ∙ ap₂ (λ z l. line (pos z) l rest) (omega (arith, moved))
        (append_assoc pre (x ∷ []) (xs ++ replicate (suc n - length xs) 0)
          ∙ ap (λ z. pre ++ (x ∷ (xs ++ replicate z 0))) (omega arith))

some_invalid-digits : (xs ys : List ℕ) → AllDigits xs → some_invalid (xs ++ ys) (length xs) ≡ false
unfolding some_invalid
some_invalid-digits [] ys w = refl
some_invalid-digits (x ∷ xs) ys w = ground (arith, some_invalid-digits xs ys w.2)

atoi-digits :
    (xs ys : List ℕ)
    → AllDigits xs
    → 0 < length xs
    → atoi (xs ++ ys) ≡ digits_value 2147483647 (xs ++ ys) 0
unfolding atoi
atoi-digits [] ys w h = absurd (omega arith)
atoi-digits (x ∷ xs) ys w h = ground arith

-- What `SC_PrintInt` shows of a positive number.
abbrev pub shown_digits : ℕ → List ℕ
shown_digits n = decimal (count_digits 10 n) n

write-all :
    (from : List ℕ) (n : ℕ) (s : System) {shown : List ℕ}
    → write_loop from n 0 s.shown ≡ some shown
    → write from n s ≡ some (done n (record s { shown = shown }))
unfolding write
write-all from n s h =
    ap
      (λ (o : Option (List ℕ)). elim o as (λ x. Option (Flow ℕ)) [
        | none ↦ none
        | some shown ↦ some (done n (record s { shown = shown }))
      ])
      h

module _ (n : ℕ) (h : n < 2 ^ 31) where
  abbrev places : ℕ
  places = count_digits 10 n

  few : places ≤ 10
  few = (count-digits_lem 10 n (omega arith)).1

  shows :
      (fresh shown : List ℕ)
      → length fresh ≡ 100
      → write_loop (put_digits places n fresh) places 0 shown ≡ some (shown ++ shown_digits n)
  shows fresh shown l =
      ap₂ (λ b m. write_loop b m 0 shown) (put_digits-decimal places n fresh (omega (arith, few)))
        (sym (length-decimal places n))
      ∙ write_loop-all [] (decimal places n) (drop places fresh) shown

  pub print_int-shows :
      (fresh : List ℕ) (s : System)
      → s.machine.registers 4 ≡ n
      → length fresh ≡ 100
      → print_int fresh s ≡ some (done tt (record s { shown = s.shown ++ shown_digits n }))
  unfolding print_int read_reg
  print_int-shows fresh s r l =
      let print : ℕ → ℕ → Option (Flow (Unit {0})) =
        λ number m. (write (put_digits m number fresh) m >>= λ w. pure tt) s in
      let counted : (if is_negative n then 0 else places) ≡ places = ground arith in
      ap (λ number. print number (if is_negative number then 0 else count_digits 10 number)) r
      ∙ ap (print n) counted
      ∙ ap (λ o. then_flow o (λ w. pure tt))
          (write-all (put_digits places n fresh) places s (shows fresh s.shown l))

read-line :
    (n : ℕ) (s : System) {result : ℤ} {into typed : List ℕ}
    → read_line s.typed n 0 (replicate n 0) ≡ line result into typed
    → read n s ≡ some (done (result, into) (record s { typed = typed }))
unfolding read
read-line n s h =
    ap
      (λ (l : Line). elim l as (λ x. Option (Flow (ℤ × List ℕ))) [
        | line result into typed ↦ some (done (result, into) (record s { typed = typed }))
        | no_key ↦ some (waits s)
      ])
      h

digits_value-end : (limit acc m : ℕ) → digits_value limit (replicate (suc m) 0) acc ≡ some acc
unfolding digits_value
digits_value-end limit acc m = refl

module _ (n : ℕ) (p : 0 < n) (h : n < 2 ^ 31) where
  abbrev digits : List ℕ
  digits = decimal (count_digits 10 n) n

  digit_count : (0 < length digits) × (length digits ≤ 10)
  digit_count =
      let (bound, few, some_digit) = count-digits_lem 10 n (omega arith) in
      (
        omega (arith, length-decimal (count_digits 10 n) n, some_digit p),
        omega (arith, length-decimal (count_digits 10 n) n, few),
      )

  abbrev buffer : List ℕ
  buffer = digits ++ replicate (100 - length digits) 0

  atoi-buffer : atoi buffer ≡ some n
  atoi-buffer =
      let room : 100 - length digits ≡ suc (99 - length digits) = omega (arith, digit_count.1) in
      atoi-digits digits (replicate (100 - length digits) 0)
        (decimal-AllDigits (count_digits 10 n) n) digit_count.0
      ∙ digits_value-decimal 2147483647 (count_digits 10 n) n (replicate (100 - length digits) 0)
          (count-digits_lem 10 n (omega arith)).0 (omega arith)
      ∙ ap (λ m. digits_value 2147483647 (replicate m 0) n) room
      ∙ digits_value-end 2147483647 n (99 - length digits)

  zero-add : (m : ℕ) → 0 + m ≡ m
  zero-add m = omega arith

  read_int_of-buffer :
      (s : System)
      → read_int_of (pos (0 + length digits)) buffer s
        ≡ some (done tt (record s { machine = write_reg s.machine 2 n }))
  unfolding read_int_of set_reg
  read_int_of-buffer s =
      let valid : some_invalid buffer (length digits) ≡ false =
        some_invalid-digits digits (replicate (100 - length digits) 0)
          (decimal-AllDigits (count_digits 10 n) n) in
      ap (λ b. (if b then pure tt else answer (atoi buffer)) s)
        (ap (some_invalid buffer) (zero-add (length digits)) ∙ valid)
      ∙ ap (λ o. answer o s) atoi-buffer

  read_int-reads :
      (s : System) (rest : List ℕ)
      → s.typed ≡ digits ++ (10 ∷ rest)
      → read_int s ≡ some (done tt (record s { typed = rest; machine = write_reg s.machine 2 n }))
  unfolding read_int
  read_int-reads s rest e =
      ap (λ o. then_flow o (λ (length, buffer). read_int_of length buffer))
        (read-line 100 s (
          ap (λ ty. read_line ty 100 0 (replicate 100 0)) e
          ∙ read_line-digits [] digits rest 99 (decimal-AllDigits (count_digits 10 n) n)
              (omega (arith, digit_count.1))))
      ∙ read_int_of-buffer (record s { typed = rest })

-- Where the register 4 holds a positive `int`, `SC_PrintInt` shows digits, and `SC_ReadInt` puts that
-- number into the register 2 where the same digits and a line feed are typed.
pub read_int-print_int :
    (fresh : List ℕ) (s t : System) (n : ℕ) (rest : List ℕ)
    → s.machine.registers 4 ≡ n
    → 0 < n
    → n < 2 ^ 31
    → length fresh ≡ 100
    → (text : List ℕ) × (print_int fresh s ≡ some (done tt (record s { shown = s.shown ++ text })))
      × (t.typed ≡ text ++ (10 ∷ rest)
          → read_int t
            ≡ some (done tt (record t { typed = rest; machine = write_reg t.machine 2 n })))
read_int-print_int fresh s t n rest r p h l =
    (shown_digits n, print_int-shows n h fresh s r l, λ e. read_int-reads n p h t rest e)
