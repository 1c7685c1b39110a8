-- ===== src/FileSys/OpenFile/Stored.antt =====
-- The last loop of `WriteAt` of nachos-3.4/code/filesys/openfile.cc: whole sectors of a file are replaced.
use n4ch0s.Base.{
  ltb→lt, ltb_false→le, Bool-cases, ltb, lt→ltb, get_elem?, take, drop, ==_ne, ==_self, ◌==◌, ◌∙◌,
  sym, ◌+◌, ◌*◌, ◌/◌, ◌<◌, ◌≤◌, ◌≡◌, ◌≢◌, ℕ, zero, suc, refl, some, List, arith, length, get_or,
  ◌-◌, ◌%◌, ap, inl, inr,
}
use n4ch0s.Base.Int.{pos}
use n4ch0s.FileSys.FileHeader.{FileHeader, sector_size, file_length}
use n4ch0s.FileSys.OpenFile.{write_sector, write_sectors, replaced}
use n4ch0s.FileSys.OpenFile.Buffer.{get_or-take, length-take, get_or-drop, length-drop}
use n4ch0s.FileSys.OpenFile.Reading.{Readable, file_byte, file_byte_lem, sector_of}
use n4ch0s.Disk.{num_sectors}
use mathlib.Core.Path.{subst}

-- No sector holds two parts of the file.
abbrev pub Apart : FileHeader → Type 0
Apart hdr =
    (i j k : ℕ)
    → i < file_length hdr
    → j < file_length hdr
    → get_elem? hdr.data_sectors (i / sector_size) ≡ some (pos k)
    → get_elem? hdr.data_sectors (j / sector_size) ≡ some (pos k)
    → i / sector_size ≡ j / sector_size

-- The disk `disk'` differs from `disk` in the bytes of the file from `start` on, which are `bytes`.
pub record Stores (hdr : FileHeader) (disk disk' : ℕ → List ℕ) (start : ℕ) (bytes : List ℕ)
    : Type 0 where
  pub full : (k : ℕ) → length (disk' k) ≡ sector_size
  pub inside :
      (j : ℕ)
      → j < length bytes
      → start + j < file_length hdr
      → file_byte hdr disk' (start + j) ≡ get_or bytes j 0
  pub before :
      (j : ℕ) → j < start → j < file_length hdr → file_byte hdr disk' j ≡ file_byte hdr disk j
  pub behind :
      (j : ℕ)
      → start + length bytes ≤ j
      → j < file_length hdr
      → file_byte hdr disk' j ≡ file_byte hdr disk j
  pub elsewhere :
      (k : ℕ)
      → ((j : ℕ)
          → j < file_length hdr
          → get_elem? hdr.data_sectors (j / sector_size) ≢ some (pos k))
      → disk' k ≡ disk k

pub sector_written :
    (disk : ℕ → List ℕ) (k : ℕ) (bytes : List ℕ)
    → k < num_sectors
    → write_sector disk (pos k) bytes ≡ some (replaced disk k bytes)
unfolding write_sector
sector_written disk k bytes b = rw (lt→ltb k num_sectors b) refl

pub replaced_self : (disk : ℕ → List ℕ) (k : ℕ) (bytes : List ℕ) → replaced disk k bytes k ≡ bytes
replaced_self disk k bytes = rw (==_self k) refl

pub replaced_ne :
    (disk : ℕ → List ℕ) (k j : ℕ) (bytes : List ℕ) → j ≢ k → replaced disk k bytes j ≡ disk j
replaced_ne disk k j bytes h = rw (==_ne j k h) refl

pub length-replaced :
    (disk : ℕ → List ℕ) (k j n : ℕ) (bytes : List ℕ)
    → length bytes ≡ n
    → length (disk j) ≡ n
    → length (replaced disk k bytes j) ≡ n
length-replaced disk k j n bytes h g = elim (Bool-cases (j == k)) [
  | inl e ↦ rw e h
  | inr e ↦ rw e g
]

-- A byte of another part of the file keeps its place on the disk.
same_byte :
    (hdr : FileHeader) (disk : ℕ → List ℕ) (i k j : ℕ) (bytes : List ℕ)
    → Readable hdr disk
    → Apart hdr
    → i < file_length hdr
    → get_elem? hdr.data_sectors (i / sector_size) ≡ some (pos k)
    → j < file_length hdr
    → j / sector_size ≢ i / sector_size
    → file_byte hdr (replaced disk k bytes) j ≡ file_byte hdr disk j
same_byte hdr disk i k j bytes s apart p e q ne =
    let (k', e', b') = s.data_of j q in
    let other : k' ≢ k = λ x. ne (apart j i k q p (e' ∙ ap (λ y. some (pos y)) x) e) in
    file_byte_lem hdr (replaced disk k bytes) j k' e' b'
    ∙ ap (λ x. get_or x (j % sector_size) 0) (replaced_ne disk k k' bytes other)
    ∙ sym (file_byte_lem hdr disk j k' e' b')

one_sector-Stores :
    (hdr : FileHeader) (disk : ℕ → List ℕ) (i k : ℕ) (bytes : List ℕ)
    → Readable hdr disk
    → Apart hdr
    → i * sector_size < file_length hdr
    → get_elem? hdr.data_sectors (i * sector_size / sector_size) ≡ some (pos k)
    → k < num_sectors
    → length bytes ≡ sector_size
    → Stores hdr disk (replaced disk k bytes) (i * sector_size) bytes
one_sector-Stores hdr disk i k bytes s apart p e b l = record {
  full = λ j. length-replaced disk k j sector_size bytes l (s.full j);
  inside = λ j q r.
      (let at : (i * sector_size + j) / sector_size ≡ i * sector_size / sector_size = omega arith in
        let place : (i * sector_size + j) % sector_size ≡ j = omega arith in
        file_byte_lem hdr (replaced disk k bytes) (i * sector_size + j) k
          (ap (λ x. get_elem? hdr.data_sectors x) at ∙ e) b
        ∙ ap (λ x. get_or (replaced disk k bytes k) x 0) place
        ∙ ap (λ x. get_or x j 0) (replaced_self disk k bytes));
  before = λ j q r. same_byte hdr disk (i * sector_size) k j bytes s apart p e r (omega arith);
  behind = λ j q r. same_byte hdr disk (i * sector_size) k j bytes s apart p e r (omega arith);
  elsewhere = λ j q.
      replaced_ne disk k j bytes (λ x. q (i * sector_size) p (e ∙ ap (λ y. some (pos y)) (sym x)));
}

-- Two writes, of the parts of a buffer.
Stores-join :
    (hdr : FileHeader) (d0 d1 d2 : ℕ → List ℕ) (start cut : ℕ) (buf : List ℕ)
    → cut ≤ length buf
    → Stores hdr d0 d1 start (take cut buf)
    → Stores hdr d1 d2 (start + cut) (drop cut buf)
    → Stores hdr d0 d2 start buf
Stores-join hdr d0 d1 d2 start cut buf c a b =
    let la : length (take cut buf) ≡ cut = length-take cut buf c in
    let lb : length (drop cut buf) ≡ length buf - cut = length-drop cut buf in
    record {
      full = b.full;
      inside = λ j p q. elim (Bool-cases (ltb j cut)) [
        | inl t ↦
            let under : j < cut = ltb→lt j cut t in
            b.before (start + j) (omega arith) q
            ∙ a.inside j (omega arith) q
            ∙ get_or-take cut buf j 0 under
        | inr t ↦
            let above : cut ≤ j = ltb_false→le j cut t in
            let place : start + cut + (j - cut) ≡ start + j = omega arith in
            let back : cut + (j - cut) ≡ j = omega arith in
            sym (ap (λ x. file_byte hdr d2 x) place)
            ∙ b.inside (j - cut) (omega arith) (omega arith)
            ∙ get_or-drop cut buf (j - cut) 0
            ∙ ap (λ x. get_or buf x 0) back
      ];
      before = λ j p q. b.before j (omega arith) q ∙ a.before j p q;
      behind = λ j p q. b.behind j (omega arith) q ∙ a.behind j (omega arith) q;
      elsewhere = λ k p. b.elsewhere k p ∙ a.elsewhere k p;
    }

pub write_sectors-Stores :
    (hdr : FileHeader) (disk : ℕ → List ℕ) (n i : ℕ) (buf : List ℕ)
    → Readable hdr disk
    → Apart hdr
    → (i + n) * sector_size < file_length hdr + sector_size
    → length buf ≡ n * sector_size
    → (disk' : ℕ → List ℕ) × (write_sectors hdr disk n i buf ≡ some disk')
      × Stores hdr disk disk' (i * sector_size) buf
unfolding write_sectors
write_sectors-Stores hdr disk zero i buf s apart h l = (
  disk,
  refl,
  record {
    full = s.full;
    inside = λ j p q. absurd (omega arith);
    before = λ j p q. refl;
    behind = λ j p q. refl;
    elsewhere = λ k p. refl;
  },
)
write_sectors-Stores hdr disk (suc n) i buf s apart h l =
    let (k, e, b) = s.data_of (i * sector_size) (omega arith) in
    let l1 : length (take sector_size buf) ≡ sector_size =
      length-take sector_size buf (omega arith) in
    let one = one_sector-Stores hdr disk i k (take sector_size buf) s apart (omega arith) e b l1 in
    let disk1 = replaced disk k (take sector_size buf) in
    let (disk', w, r) =
      write_sectors-Stores hdr disk1 n (suc i) (drop sector_size buf)
        (record { data_of = s.data_of; full = one.full }) apart (omega arith)
        (omega (arith, length-drop sector_size buf)) in
    let next : suc i * sector_size ≡ i * sector_size + sector_size = omega arith in
    let rest = subst (λ x. Stores hdr disk1 disk' x (drop sector_size buf)) next r in
    (
      disk',
      rw (sector_of hdr (i * sector_size) k e, sector_written disk k (take sector_size buf) b) w,
      Stores-join hdr disk disk1 disk' (i * sector_size) sector_size buf (omega arith) one rest,
    )
