-- ===== src/FileSys/Names.antt =====
-- `strncmp` and `strncpy` as nachos-3.4/code/filesys/directory.cc uses them on file names.
use n4ch0s.Base.{
  ℕ, ◌≤◌, ◌≡◌, ◌||◌, ◌∷◌, ◌==◌, if◌then◌else◌, zero, suc, refl, ap, Bool, true, false, List, [],
  arith, length,
}

-- A text is the list of its bytes up to the terminating 0; a buffer may hold zeros.
abbrev pub first_byte : List ℕ → ℕ
first_byte [] = 0
first_byte (c ∷ cs) = c

abbrev pub rest_bytes : List ℕ → List ℕ
rest_bytes [] = []
rest_bytes (c ∷ cs) = cs

-- `!strncmp(a, b, n)`: no difference up to `n` bytes or the end of both texts.
unfoldable pub same_name : ℕ → List ℕ → List ℕ → Bool
same_name zero a b = true
same_name (suc n) a b =
    if first_byte a == first_byte b
    then (first_byte a == 0) || same_name n (rest_bytes a) (rest_bytes b)
    else false

-- `strncpy(to, from, n)` into a buffer; a short text is padded with zeros.
pub copy_name : ℕ → List ℕ → List ℕ → List ℕ
copy_name zero buf from = buf
copy_name (suc n) [] from = []
copy_name (suc n) (b ∷ buf) from = first_byte from ∷ copy_name n buf (rest_bytes from)

pub same_name_refl : (n : ℕ) (a : List ℕ) → same_name n a a ≡ true
unfolding same_name
same_name_refl zero a = refl
same_name_refl (suc n) a = ground (arith, same_name_refl n (rest_bytes a))

pub same_name_sym : (n : ℕ) (a b : List ℕ) → same_name n a b ≡ same_name n b a
unfolding same_name
same_name_sym zero a b = refl
same_name_sym (suc n) a b = ground (arith, same_name_sym n (rest_bytes a) (rest_bytes b))

-- Equal names are interchangeable on the left of a comparison.
pub same_name_trans :
    (n : ℕ) (a b c : List ℕ) → same_name n a b ≡ true → same_name n a c ≡ same_name n b c
unfolding same_name
same_name_trans zero a b c h = refl
same_name_trans (suc n) a b c h =
    ground (arith, same_name_trans n (rest_bytes a) (rest_bytes b) (rest_bytes c))

-- A copied name compares as the name itself.
pub same_name-copy_name :
    (n : ℕ) (buf a b : List ℕ)
    → n ≤ length buf
    → same_name n (copy_name n buf a) b ≡ same_name n a b
unfolding same_name copy_name
same_name-copy_name zero buf a b h = refl
same_name-copy_name (suc n) [] a b h = absurd (omega arith)
same_name-copy_name (suc n) (x ∷ buf) a b h =
    ground (arith, same_name-copy_name n buf (rest_bytes a) (rest_bytes b))

pub length-copy_name : (n : ℕ) (buf a : List ℕ) → length (copy_name n buf a) ≡ length buf
unfolding copy_name
length-copy_name zero buf a = refl
length-copy_name (suc n) [] a = refl
length-copy_name (suc n) (x ∷ buf) a = ap suc (length-copy_name n buf (rest_bytes a))
