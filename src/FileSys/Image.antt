-- ===== src/FileSys/Image.antt =====
-- The bytes of the structures that nachos-3.4/code/filesys stores on the disk by casting a pointer to `char *`,
-- on a little-endian host with ints of four bytes and a bool of one.
pub mod Laws
use n4ch0s.Base.{
  ℕ, zero, suc, ◌+◌, ◌-◌, ◌*◌, ◌/◌, ◌%◌, ◌^◌, ◌==◌, not, Bool, true, false, if◌then◌else◌, List, [],
  ◌∷◌, ◌++◌, take, drop, get_or,
}
use n4ch0s.Base.Int.{ℤ, pos, negsuc, signed32}
use n4ch0s.FileSys.FileHeader.{FileHeader}
use n4ch0s.FileSys.Directory.{Entry}

-- The two's complement of an int.
abbrev pub word_of : ℤ → ℕ
word_of (pos n) = n % 2 ^ 32
word_of (negsuc n) = 2 ^ 32 - 1 - n % 2 ^ 32

abbrev pub put_word : ℕ → List ℕ
put_word w = w % 2 ^ 8 ∷ w / 2 ^ 8 % 2 ^ 8 ∷ w / 2 ^ 16 % 2 ^ 8 ∷ w / 2 ^ 24 % 2 ^ 8 ∷ []

abbrev pub get_word : List ℕ → ℕ
get_word bytes =
    get_or bytes 0 0
    + 2 ^ 8 * get_or bytes 1 0
    + 2 ^ 16 * get_or bytes 2 0
    + 2 ^ 24 * get_or bytes 3 0

abbrev pub put_bool : Bool → ℕ
put_bool true = 1
put_bool false = 0

-- An array, and one of `n` items of a size in bytes.
module _ {ℓ} {A : Type ℓ} where
  abbrev pub put_all : (A → List ℕ) → List A → List ℕ
  put_all put [] = []
  put_all put (x ∷ xs) = put x ++ put_all put xs

  abbrev pub get_all : (List ℕ → A) → (size n : ℕ) → List ℕ → List A
  get_all get size zero bytes = []
  get_all get size (suc n) bytes = get bytes ∷ get_all get size n (drop size bytes)

abbrev pub put_int : ℤ → List ℕ
put_int n = put_word (word_of n)

abbrev pub get_int : List ℕ → ℤ
get_int bytes = signed32 (get_word bytes)

-- `FileHeader`: two ints, and the array of sectors.
unfoldable pub put_header : FileHeader → List ℕ
put_header h = put_word h.num_bytes ++ (put_word h.num_sectors ++ put_all put_int h.data_sectors)

-- A count in the bytes is read as a word without its sign.
unfoldable pub get_header : List ℕ → FileHeader
get_header bytes = record {
  num_bytes = get_word bytes;
  num_sectors = get_word (drop 4 bytes);
  data_sectors = get_all get_int 4 126 (drop 8 bytes);
}

abbrev pub entry_size : ℕ
entry_size = 20

-- `DirectoryEntry`: the bool and three bytes that the compiler leaves free, the sector, and the name with
-- two free bytes.
unfoldable pub put_entry : Entry → List ℕ
put_entry e = put_bool e.in_use ∷ 0 ∷ 0 ∷ 0 ∷ (put_int e.sector ++ (e.name ++ (0 ∷ 0 ∷ [])))

unfoldable pub get_entry : List ℕ → Entry
get_entry bytes = record {
  in_use = not (get_or bytes 0 0 == 0);
  sector = get_int (drop 4 bytes);
  name = take 10 (drop 8 bytes);
}
