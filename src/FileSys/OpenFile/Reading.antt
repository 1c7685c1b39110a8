-- ===== src/FileSys/OpenFile/Reading.antt =====
-- What `ReadAt` of nachos-3.4/code/filesys/openfile.cc reads: the bytes of the file at its position.
use n4ch0s.Base.{
  ℕ, zero, suc, ◌+◌, ◌-◌, ◌*◌, ◌/◌, ◌%◌, ◌<◌, ◌≤◌, ◌≡◌, refl, ap, sym, ◌∙◌, ◌>>=◌, Option, none,
  some, List, [], ◌++◌, take, drop, length, get_or, arith, min, length-append, inl, inr, ltb,
  lt→ltb, ltb→lt, ltb_false→le, Bool-cases, if◌then◌else◌, ◌||◌, get_elem?, true, false, leb,
}
use n4ch0s.Base.Int.{pos}
use n4ch0s.FileSys.FileHeader.{FileHeader, sector_size, byte_to_sector, file_length}
use n4ch0s.FileSys.OpenFile.{read_sector, read_sectors, read_at}
use n4ch0s.FileSys.OpenFile.Buffer.{
  get_or-append_left, get_or-append_right, length-take, get_or-take, length-drop, get_or-drop,
}
use n4ch0s.Disk.{num_sectors}

abbrev byte_in : Option (List ℕ) → ℕ → ℕ
byte_in none i = 0
byte_in (some bytes) i = get_or bytes i 0

-- The byte `i` of the file: of the sector that the header names for it, at its place in the sector.
unfoldable pub file_byte : FileHeader → (ℕ → List ℕ) → ℕ → ℕ
file_byte hdr disk i =
    byte_in (byte_to_sector hdr i >>= λ sector. read_sector disk sector) (i % sector_size)

-- The header names a sector of the disk for each byte of the file, and every sector has its full size.
pub record Readable (hdr : FileHeader) (disk : ℕ → List ℕ) : Type 0 where
  pub data_of :
      (i : ℕ)
      → i < file_length hdr
      → (k : ℕ) × (get_elem? hdr.data_sectors (i / sector_size) ≡ some (pos k)) × (k < num_sectors)
  pub full : (k : ℕ) → length (disk k) ≡ sector_size

-- A run of `n` bytes of the file from `start`.
pub record Reads (hdr : FileHeader) (disk : ℕ → List ℕ) (start n : ℕ) (o : Option (List ℕ))
    : Type 0 where
  pub bytes : List ℕ
  pub eq : o ≡ some bytes
  pub full : length bytes ≡ n
  pub same : (i : ℕ) → i < n → get_or bytes i 0 ≡ file_byte hdr disk (start + i)

pub sector_of :
    (hdr : FileHeader) (i k : ℕ)
    → get_elem? hdr.data_sectors (i / sector_size) ≡ some (pos k)
    → byte_to_sector hdr i ≡ some (pos k)
unfolding byte_to_sector
sector_of hdr i k e = e

pub sector_read :
    (disk : ℕ → List ℕ) (k : ℕ) → k < num_sectors → read_sector disk (pos k) ≡ some (disk k)
unfolding read_sector
sector_read disk k b = rw (lt→ltb k num_sectors b) refl

pub file_byte_lem :
    (hdr : FileHeader) (disk : ℕ → List ℕ) (i k : ℕ)
    → get_elem? hdr.data_sectors (i / sector_size) ≡ some (pos k)
    → k < num_sectors
    → file_byte hdr disk i ≡ get_or (disk k) (i % sector_size) 0
unfolding file_byte
file_byte_lem hdr disk i k e b =
    ap (λ o. byte_in (o >>= λ sector. read_sector disk sector) (i % sector_size))
      (sector_of hdr i k e)
    ∙ ap (λ o. byte_in o (i % sector_size)) (sector_read disk k b)

-- The rounds of the loop read whole sectors, one after the other.
pub read_sectors-Reads :
    (hdr : FileHeader) (disk : ℕ → List ℕ) (n i : ℕ)
    → Readable hdr disk
    → (i + n) * sector_size < file_length hdr + sector_size
    → Reads hdr disk (i * sector_size) (n * sector_size) (read_sectors hdr disk n i)
unfolding read_sectors
read_sectors-Reads hdr disk zero i s h = record {
  bytes = [];
  eq = refl;
  full = omega arith;
  same = λ j l. absurd (omega arith);
}
read_sectors-Reads hdr disk (suc n) i s h =
    let (k, e, b) = s.data_of (i * sector_size) (omega arith) in
    let rest = read_sectors-Reads hdr disk n (suc i) s (omega arith) in
    let own : (j : ℕ)
        → j < sector_size
        → file_byte hdr disk (i * sector_size + j) ≡ get_or (disk k) j 0 =
      λ j l.
        (let q : (i * sector_size + j) / sector_size ≡ i * sector_size / sector_size =
            omega arith in
          let r : (i * sector_size + j) % sector_size ≡ j = omega arith in
          file_byte_lem hdr disk (i * sector_size + j) k
            (ap (λ x. get_elem? hdr.data_sectors x) q ∙ e) b
          ∙ ap (λ x. get_or (disk k) x 0) r) in
    record {
      bytes = disk k ++ rest.bytes;
      eq = rw (sector_of hdr (i * sector_size) k e, sector_read disk k b, rest.eq) refl;
      full = omega (arith, length-append (disk k) rest.bytes, s.full k, rest.full);
      same = λ j l. elim (Bool-cases (ltb j sector_size)) [
        | inl t ↦
            let under : j < sector_size = ltb→lt j sector_size t in
            get_or-append_left (disk k) rest.bytes j 0 (omega (arith, s.full k)) ∙ sym (own j under)
        | inr t ↦
            let above : sector_size ≤ j = ltb_false→le j sector_size t in
            let place : suc i * sector_size + (j - sector_size) ≡ i * sector_size + j =
              omega arith in
            get_or-append_right (disk k) rest.bytes j 0 (omega (arith, s.full k))
            ∙ ap (λ x. get_or rest.bytes (j - x) 0) (s.full k)
            ∙ rest.same (j - sector_size) (omega arith)
            ∙ ap (λ x. file_byte hdr disk x) place
      ];
    }

-- The part of the buffer that is copied.
copied-Reads :
    (hdr : FileHeader) (disk : ℕ → List ℕ) (m position : ℕ)
    → Readable hdr disk
    → 0 < m
    → position + m ≤ file_length hdr
    → Reads hdr disk position m (
        read_sectors hdr disk
          (1 + (position + m - 1) / sector_size - position / sector_size)
          (position / sector_size)
        >>= λ buf. some (take m (drop (position - position / sector_size * sector_size) buf)))
copied-Reads hdr disk m position s p h =
    let first = position / sector_size in
    let rounds = 1 + (position + m - 1) / sector_size - first in
    let skipped = position - first * sector_size in
    let r = read_sectors-Reads hdr disk rounds first s (omega arith) in
    let enough : skipped + m ≤ rounds * sector_size = omega arith in
    record {
      bytes = take m (drop skipped r.bytes);
      eq = rw r.eq refl;
      full =
          length-take m (drop skipped r.bytes) (omega (arith, length-drop skipped r.bytes, r.full));
      same = λ i l.
          (let place : first * sector_size + (skipped + i) ≡ position + i = omega arith in
            get_or-take m (drop skipped r.bytes) i 0 l
            ∙ get_or-drop skipped r.bytes i 0
            ∙ r.same (skipped + i) (omega arith)
            ∙ ap (λ x. file_byte hdr disk x) place);
    }

read_at_within :
    (hdr : FileHeader) (disk : ℕ → List ℕ) (n position m : ℕ)
    → 0 < n
    → position < file_length hdr
    → m ≡ min n (file_length hdr - position)
    → read_at hdr disk (pos n) position ≡ (
        read_sectors hdr disk
          (1 + (position + m - 1) / sector_size - position / sector_size)
          (position / sector_size)
        >>= λ buf. some (take m (drop (position - position / sector_size * sector_size) buf)))
unfolding read_at
read_at_within hdr disk n position m p h e =
    let clip : (if ltb (file_length hdr) (position + n) then file_length hdr - position else n)
        ≡ m =
      ground arith in
    let some_bytes : leb n 0 ≡ false = ground arith in
    let inside : leb (file_length hdr) position ≡ false = ground arith in
    rw (some_bytes, inside, clip) refl

read_at_nothing :
    (hdr : FileHeader) (disk : ℕ → List ℕ) (n position : ℕ)
    → min n (file_length hdr - position) ≡ 0
    → read_at hdr disk (pos n) position ≡ some []
unfolding read_at
read_at_nothing hdr disk n position e =
    let empty : (leb n 0 || leb (file_length hdr) position) ≡ true = ground arith in rw empty refl

-- For a header that names a sector of the disk for every byte of the file: `ReadAt` from a position
-- returns, and has read as many bytes as were asked for, but none behind the end of the file, and each
-- is the byte of the file at its position.
pub read_at-Reads :
    (hdr : FileHeader) (disk : ℕ → List ℕ) (n position : ℕ)
    → Readable hdr disk
    → Reads hdr disk position
        (min n (file_length hdr - position))
        (read_at hdr disk (pos n) position)
read_at-Reads hdr disk n position s =
    let m = min n (file_length hdr - position) in
    elim (Bool-cases (ltb 0 m)) [
      | inl t ↦
          let some_bytes : 0 < m = ltb→lt 0 m t in
          let r = copied-Reads hdr disk m position s some_bytes (omega arith) in
          record {
            bytes = r.bytes;
            eq = read_at_within hdr disk n position m (omega arith) (omega arith) refl ∙ r.eq;
            full = r.full;
            same = r.same;
          }
      | inr t ↦
          let nothing : m ≡ 0 = omega (arith, ltb_false→le 0 m t) in
          record {
            bytes = [];
            eq = read_at_nothing hdr disk n position nothing;
            full = sym nothing;
            same = λ i l. absurd (omega arith);
          }
    ]
