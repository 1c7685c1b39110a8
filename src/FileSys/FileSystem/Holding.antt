-- ===== src/FileSys/FileSystem/Holding.antt =====
-- What an open file of nachos-3.4/code/filesys/openfile.cc holds from its first byte on, and when a write leaves it.
use n4ch0s.Base.{
  ℕ, length, get_or, take, ◌∙◌, sym, get_elem?, min, suc, ◌+◌, ◌-◌, ◌/◌, ◌%◌, ◌<◌, ◌≤◌, ◌≡◌, ◌∷◌,
  refl, ap, some, List, [], arith,
}
use n4ch0s.Base.Int.{pos}
use n4ch0s.FileSys.FileHeader.{FileHeader, sector_size, file_length}
use n4ch0s.FileSys.OpenFile.{read_at, write_at}
use n4ch0s.FileSys.OpenFile.Buffer.{length-take, get_or-take}
use n4ch0s.FileSys.OpenFile.Reading.{Readable, read_at-Reads, file_byte, file_byte_lem}
use n4ch0s.FileSys.OpenFile.Stored.{Apart, Stores}
use n4ch0s.FileSys.OpenFile.Writing.{write_at-Stores}
use mathlib.Core.Path.{ap₂, subst}

-- The sector `k` holds a part of the file.
abbrev pub Owns : FileHeader → ℕ → Type 0
Owns hdr k =
    (j : ℕ) × (j < file_length hdr) × (get_elem? hdr.data_sectors (j / sector_size) ≡ some (pos k))

pub record Holds (hdr : FileHeader) (disk : ℕ → List ℕ) (bytes : List ℕ) : Type 0 where
  pub readable : Readable hdr disk
  pub apart : Apart hdr
  pub fits : length bytes ≤ file_length hdr
  pub same : (i : ℕ) → i < length bytes → file_byte hdr disk i ≡ get_or bytes i 0

same_list :
    (xs ys : List ℕ)
    → length xs ≡ length ys
    → ((i : ℕ) → i < length xs → get_or xs i 0 ≡ get_or ys i 0)
    → xs ≡ ys
same_list [] [] l h = refl
same_list [] (y ∷ ys) l h = absurd (omega arith)
same_list (x ∷ xs) [] l h = absurd (omega arith)
same_list (x ∷ xs) (y ∷ ys) l h =
    ap₂ (λ a b. a ∷ b) (h 0 (omega arith))
      (same_list xs ys (omega arith) (λ i p. h (suc i) (omega arith)))

-- The bytes that the file holds are read.
pub read_at-Holds :
    (hdr : FileHeader) (disk : ℕ → List ℕ) (bytes : List ℕ) (n : ℕ)
    → Holds hdr disk bytes
    → length bytes ≡ n
    → read_at hdr disk (pos n) 0 ≡ some bytes
read_at-Holds hdr disk bytes n h l =
    let fits = h.fits in
    let r = read_at-Reads hdr disk n 0 h.readable in
    let z : length r.bytes ≡ length bytes = omega (arith, r.full) in
    r.eq
    ∙ ap some (
        same_list r.bytes bytes z (λ i p.
          (let place : 0 + i ≡ i = omega arith in
            r.same i (omega (arith, r.full))
            ∙ ap (λ x. file_byte hdr disk x) place
            ∙ h.same i (omega arith))))

-- Bytes that are written at the beginning are held, and the sectors of other files are as before.
pub write_at-Holds :
    (hdr : FileHeader) (disk buffer : ℕ → List ℕ) (bytes : List ℕ) (n : ℕ)
    → Readable hdr disk
    → Apart hdr
    → ((k : ℕ) → length (buffer k) ≡ k)
    → length bytes ≡ n
    → n ≤ file_length hdr
    → (disk' : ℕ → List ℕ) × (write_at hdr disk buffer bytes (pos n) 0 ≡ some (n, disk'))
      × Holds hdr disk' bytes
      × ((k : ℕ) → ¬ Owns hdr k → disk' k ≡ disk k)
write_at-Holds hdr disk buffer bytes n r apart fr l f =
    let (disk', e, s) = write_at-Stores hdr disk buffer bytes n 0 r apart fr (omega arith) in
    let m : min n (file_length hdr - 0) ≡ n = omega arith in
    let z : length (take n bytes) ≡ n = length-take n bytes (omega arith) in
    let st = subst (λ x. Stores hdr disk disk' 0 (take x bytes)) m s in
    (
      disk',
      e ∙ ap (λ x. some (x, disk')) m,
      record {
        readable = record { data_of = r.data_of; full = s.full };
        apart = apart;
        fits = omega arith;
        same = λ i p.
            (let place : 0 + i ≡ i = omega arith in
              sym (ap (λ x. file_byte hdr disk' x) place)
              ∙ st.inside i (omega arith) (omega arith)
              ∙ get_or-take n bytes i 0 (omega arith));
      },
      λ k h. s.elsewhere k (λ j p q. h (j, p, q)),
    )

-- A file is not changed with the sectors of others.
pub Holds-kept :
    (hdr : FileHeader) (disk disk' : ℕ → List ℕ) (bytes : List ℕ)
    → Holds hdr disk bytes
    → ((k : ℕ) → length (disk' k) ≡ sector_size)
    → ((k : ℕ) → Owns hdr k → disk' k ≡ disk k)
    → Holds hdr disk' bytes
Holds-kept hdr disk disk' bytes h full kept =
    let fits = h.fits in
    record {
      readable = record { data_of = h.readable.data_of; full = full };
      apart = h.apart;
      fits = h.fits;
      same = λ i p.
          (let (k, e, b) = h.readable.data_of i (omega arith) in
            file_byte_lem hdr disk' i k e b
            ∙ ap (λ x. get_or x (i % sector_size) 0) (kept k (i, omega arith, e))
            ∙ sym (file_byte_lem hdr disk i k e b)
            ∙ h.same i p);
    }
