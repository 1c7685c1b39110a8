-- ===== src/FileSys/FileSystem/Fetching.antt =====
-- What `FetchFrom` reads back after `WriteBack`: the headers, the directory and the bit map of
-- nachos-3.4/code/filesys/filesys.cc.
use n4ch0s.Base.{
  ℕ, length, ◌∙◌, sym, ◌++◌, drop, ◌+◌, ◌*◌, ◌^◌, ◌<◌, ◌≡◌, ◌∷◌, suc, refl, ap, some, List, [],
  arith,
}
use mathlib.Core.List.{append-nil}
use n4ch0s.Base.Int.{pos}
use n4ch0s.BitMap.{BitMap, AllWords}
use n4ch0s.Disk.{num_sectors}
use n4ch0s.FileSys.FileHeader.{FileHeader}
use n4ch0s.FileSys.Directory.{Directory}
use n4ch0s.FileSys.OpenFile.{OpenFile, overlay}
use n4ch0s.FileSys.OpenFile.Reading.{sector_read}
use n4ch0s.FileSys.Image.{
  put_word, get_word, put_all, get_all, put_header, get_header, put_entry, get_entry, entry_size,
}
use n4ch0s.FileSys.Image.Laws.{
  All, IsEntry, IsStorable, get_all-put_all, length-put_all, get_entry-put_entry, length-put_entry,
  get_word-put_word, get_header-put_header,
}
use n4ch0s.FileSys.FileSystem.{fetch_header, fetch_directory, fetch_bit_map}
use n4ch0s.FileSys.FileSystem.Holding.{Holds, read_at-Holds}

-- An array of words or entries that is stored over another one of its length.
module _ {ℓ κ} {A : Type ℓ} (put : A → List ℕ) (get : List ℕ → A) (size : ℕ) (Good : A → Type κ)
    (put_size : (x : A) → Good x → length (put x) ≡ size)
    (get-put : (x : A) (rest : List ℕ) → Good x → get (put x ++ rest) ≡ x) where
  get_all-overlay :
      (old new : List A)
      → All Good new
      → length old ≡ length new
      → get_all get size (length old) (overlay (put_all put old) 0 (put_all put new)) ≡ new
  get_all-overlay old new h l =
      ap (λ n. get_all get size n (overlay (put_all put old) 0 (put_all put new))) l
      ∙ get_all-put_all put get size Good put_size get-put new
          (drop (0 + length (put_all put new)) (put_all put old)) h

pub fetch_directory-Holds :
    (file : OpenFile) (disk : ℕ → List ℕ) (old d : Directory)
    → Holds file.hdr disk (put_all put_entry d.table)
    → All IsEntry d.table
    → length old.table ≡ length d.table
    → fetch_directory file disk old ≡ some d
unfolding fetch_directory
fetch_directory-Holds file disk old d h good l =
    let z : length (put_all put_entry d.table) ≡ length old.table * entry_size =
      length-put_all put_entry get_entry entry_size IsEntry length-put_entry get_entry-put_entry
        d.table good
      ∙ ap (λ x. x * entry_size) (sym l) in
    rw (read_at-Holds file.hdr disk (put_all put_entry d.table) (length old.table * entry_size) h z)
      (ap (λ t. some (record { table = t }))
        (get_all-overlay put_entry get_entry entry_size IsEntry length-put_entry get_entry-put_entry
          old.table d.table good l))

abbrev pub IsWord : ℕ → Type 0
IsWord w = w < 2 ^ 32

pub words_fit : (ws : List ℕ) → AllWords ws → All IsWord ws
words_fit [] h = tt
words_fit (w ∷ ws) h = (h 0, words_fit ws (λ i. h (suc i)))

pub fetch_bit_map-Holds :
    (file : OpenFile) (disk : ℕ → List ℕ) (old m : BitMap)
    → Holds file.hdr disk (put_all put_word m.map)
    → AllWords m.map
    → old.num_bits ≡ m.num_bits
    → old.num_words ≡ m.num_words
    → length m.map ≡ m.num_words
    → length old.map ≡ old.num_words
    → fetch_bit_map file disk old ≡ some m
unfolding fetch_bit_map
fetch_bit_map-Holds file disk old m h good b w lm lo =
    let fit = words_fit m.map good in
    let z : length (put_all put_word m.map) ≡ old.num_words * 4 =
      length-put_all put_word get_word 4 IsWord (λ x _. refl) get_word-put_word m.map fit
      ∙ omega arith in
    let maps =
      get_all-overlay put_word get_word 4 IsWord (λ x _. refl) get_word-put_word old.map m.map fit
        (omega arith) in
    rw (read_at-Holds file.hdr disk (put_all put_word m.map) (old.num_words * 4) h z)
      (λ i. some (record { num_bits = b i; num_words = w i; map = maps i }))

-- A header that is written to a sector of the disk.
pub fetch_header-written :
    (disk : ℕ → List ℕ) (h : FileHeader) (k : ℕ)
    → IsStorable h
    → k < num_sectors
    → disk k ≡ put_header h
    → fetch_header disk (pos k) ≡ some h
unfolding fetch_header
fetch_header-written disk h k s b e = rw (sector_read disk k b) (
    ap (λ x. some (get_header x)) (e ∙ sym (append-nil (put_header h)))
    ∙ ap some (get_header-put_header h [] s))
