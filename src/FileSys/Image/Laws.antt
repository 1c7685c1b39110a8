-- ===== src/FileSys/Image/Laws.antt =====
-- What is stored and read again is the same: the structures of nachos-3.4/code/filesys.
use mathlib.Core.List.{append_assoc}
use n4ch0s.Base.{not, ◌==◌, sym, ℕ, zero, suc, refl, ap, Bool, true, false, List, [], arith, length}
use n4ch0s.Base.{
  ℕ, drop, length, length-append, ◌∙◌, take, true, false, ◌*◌, ◌^◌, ◌<◌, ◌≡◌, ◌++◌, ◌∷◌, zero, suc,
  refl, ap, List, [], arith, sym,
}
use n4ch0s.Base.Int.{ℤ, pos, negsuc, signed32}
use n4ch0s.FileSys.FileHeader.{FileHeader}
use n4ch0s.FileSys.Directory.{Entry}
use n4ch0s.FileSys.Image.{
  put_bool, word_of, put_word, get_word, put_all, get_all, put_int, get_int, put_header, get_header,
  put_entry, get_entry, entry_size,
}
use mathlib.Core.Path.{ap₂}

-- An int of 32 bits.
abbrev pub IsInt : ℤ → Type 0
IsInt (pos n) = n < 2 ^ 31
IsInt (negsuc n) = n < 2 ^ 31

abbrev pub All {ℓ κ} : {A : Type ℓ} → (A → Type κ) → List A → Type κ
All p [] = Unit
All p (x ∷ xs) = p x × All p xs

pub get_word-put_word : (w : ℕ) (rest : List ℕ) → w < 2 ^ 32 → get_word (put_word w ++ rest) ≡ w
get_word-put_word w rest h = omega arith

signed32-word_of : (n : ℤ) → IsInt n → signed32 (word_of n) ≡ n
signed32-word_of (pos n) h = ground arith
signed32-word_of (negsuc n) h = ground arith

word_of_lt : (n : ℤ) → word_of n < 2 ^ 32
word_of_lt (pos n) = omega arith
word_of_lt (negsuc n) = omega arith

pub get_int-put_int : (n : ℤ) (rest : List ℕ) → IsInt n → get_int (put_int n ++ rest) ≡ n
get_int-put_int n rest h =
    ap signed32 (get_word-put_word (word_of n) rest (word_of_lt n)) ∙ signed32-word_of n h

module _ {ℓ} {A : Type ℓ} where
  pub drop-append : (xs ys : List A) (n : ℕ) → length xs ≡ n → drop n (xs ++ ys) ≡ ys
  drop-append [] ys zero h = refl
  drop-append [] ys (suc n) h = absurd (omega arith)
  drop-append (x ∷ xs) ys zero h = absurd (omega arith)
  drop-append (x ∷ xs) ys (suc n) h = drop-append xs ys n (omega arith)

  pub take-append : (xs ys : List A) (n : ℕ) → length xs ≡ n → take n (xs ++ ys) ≡ xs
  take-append [] ys zero h = refl
  take-append [] ys (suc n) h = absurd (omega arith)
  take-append (x ∷ xs) ys zero h = absurd (omega arith)
  take-append (x ∷ xs) ys (suc n) h = ap (λ l. x ∷ l) (take-append xs ys n (omega arith))

-- An array of items that are each stored in `size` bytes.
module _ {ℓ κ} {A : Type ℓ} (put : A → List ℕ) (get : List ℕ → A) (size : ℕ) (Good : A → Type κ)
    (put_size : (x : A) → Good x → length (put x) ≡ size)
    (get-put : (x : A) (rest : List ℕ) → Good x → get (put x ++ rest) ≡ x) where
  pub length-put_all : (xs : List A) → All Good xs → length (put_all put xs) ≡ length xs * size
  length-put_all [] h = omega arith
  length-put_all (x ∷ xs) h =
      length-append (put x) (put_all put xs) ∙ omega (arith, put_size x h.0, length-put_all xs h.1)

  pub get_all-put_all :
      (xs : List A) (rest : List ℕ)
      → All Good xs
      → get_all get size (length xs) (put_all put xs ++ rest) ≡ xs
  get_all-put_all [] rest h = refl
  get_all-put_all (x ∷ xs) rest h =
      let behind = put_all put xs ++ rest in
      ap (λ l. get l ∷ get_all get size (length xs) (drop size l))
        (append_assoc (put x) (put_all put xs) rest)
      ∙ ap₂ (λ a b. a ∷ b) (get-put x behind h.0)
          (ap (λ l. get_all get size (length xs) l)
              (drop-append (put x) behind size (put_size x h.0))
            ∙ get_all-put_all xs rest h.1)

-- A header as the file system makes it.
pub record IsStorable (h : FileHeader) : Type 0 where
  pub bytes_fit : h.num_bytes < 2 ^ 32
  pub sectors_fit : h.num_sectors < 2 ^ 32
  pub all_there : length h.data_sectors ≡ 126
  pub ints : All IsInt h.data_sectors

pub length-put_header : (h : FileHeader) → IsStorable h → length (put_header h) ≡ 512
unfolding put_header
length-put_header h s = omega (
  arith,
  length-put_all put_int get_int 4 IsInt (λ n _. refl) get_int-put_int h.data_sectors s.ints,
  s.all_there,
)

pub get_header-put_header :
    (h : FileHeader) (rest : List ℕ) → IsStorable h → get_header (put_header h ++ rest) ≡ h
unfolding put_header get_header
get_header-put_header h rest s =
    let b = get_word-put_word h.num_bytes [] s.bytes_fit in
    let n = get_word-put_word h.num_sectors [] s.sectors_fit in
    let d : get_all get_int 4 126 (put_all put_int h.data_sectors ++ rest) ≡ h.data_sectors =
      ap (λ k. get_all get_int 4 k (put_all put_int h.data_sectors ++ rest)) (sym s.all_there)
      ∙ get_all-put_all put_int get_int 4 IsInt (λ n _. refl) get_int-put_int h.data_sectors rest
          s.ints in
    λ i. record { num_bytes = b i; num_sectors = n i; data_sectors = d i }

-- An entry whose name fills its buffer.
abbrev pub IsEntry : Entry → Type 0
IsEntry e = (length e.name ≡ 10) × IsInt e.sector

pub length-put_entry : (e : Entry) → IsEntry e → length (put_entry e) ≡ entry_size
unfolding put_entry
length-put_entry e h = omega (arith, length-append e.name (0 ∷ 0 ∷ []), h.0)

put_bool_lem : (b : Bool) → not (put_bool b == 0) ≡ b
put_bool_lem true = refl
put_bool_lem false = refl

pub get_entry-put_entry :
    (e : Entry) (rest : List ℕ) → IsEntry e → get_entry (put_entry e ++ rest) ≡ e
unfolding put_entry get_entry
get_entry-put_entry e rest h =
    let s = get_int-put_int e.sector [] h.1 in
    let n : take 10 ((e.name ++ (0 ∷ 0 ∷ [])) ++ rest) ≡ e.name =
      ap (λ l. take 10 l) (append_assoc e.name (0 ∷ 0 ∷ []) rest)
      ∙ take-append e.name ((0 ∷ 0 ∷ []) ++ rest) 10 h.0 in
    λ i. record { in_use = put_bool_lem e.in_use i; sector = s i; name = n i }
