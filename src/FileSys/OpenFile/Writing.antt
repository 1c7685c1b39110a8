-- ===== src/FileSys/OpenFile/Writing.antt =====
-- What `WriteAt` of nachos-3.4/code/filesys/openfile.cc writes.
use n4ch0s.Base.{
  ltb→lt, ltb_false→le, Bool-cases, ltb, ==_iff, ◌==◌, ◌∙◌, sym, min, ◌+◌, ◌-◌, ◌*◌, ◌<◌, ◌≤◌, ◌≡◌,
  ℕ, refl, ap, true, false, some, List, inl, inr, arith, length, ◌/◌, ◌||◌, >>=-eq-some,
  if◌then◌else◌, take, leb,
}
use n4ch0s.Base.Int.{pos}
use n4ch0s.FileSys.FileHeader.{FileHeader, sector_size, file_length}
use n4ch0s.FileSys.OpenFile.{write_sectors, fill_first, fill_last, overlay, write_at}
use n4ch0s.FileSys.OpenFile.Buffer.{length-overlay, length-take}
use n4ch0s.FileSys.OpenFile.Reading.{Readable}
use n4ch0s.FileSys.OpenFile.Stored.{Apart, Stores, write_sectors-Stores}
use mathlib.Core.Path.{subst}
use n4ch0s.FileSys.OpenFile.Around.{prepare, prepare-Ready, settled}

-- The steps of a write of `m` bytes that are `from`, and what they have done.
record Written (hdr : FileHeader) (disk : ℕ → List ℕ) (fresh : ℕ → List ℕ) (from : List ℕ)
    (position m : ℕ) : Type 0 where
  disk' : ℕ → List ℕ
  buf : List ℕ
  buf' : List ℕ
  first_filled :
      fill_first hdr disk
        (position / sector_size)
        (position == position / sector_size * sector_size)
        (fresh ((1 + (position + m - 1) / sector_size - position / sector_size) * sector_size))
      ≡ some buf
  last_filled :
      fill_last hdr disk
        (position / sector_size)
        ((position + m - 1) / sector_size)
        (position == position / sector_size * sector_size)
        (position + m == ((position + m - 1) / sector_size + 1) * sector_size)
        buf
      ≡ some buf'
  sectors_written :
      write_sectors hdr disk
        (1 + (position + m - 1) / sector_size - position / sector_size)
        (position / sector_size)
        (overlay buf' (position - position / sector_size * sector_size) from)
      ≡ some disk'
  stores : Stores hdr disk disk' position from

-- The write of bytes that lie inside the file.
inside-Written :
    (hdr : FileHeader) (disk : ℕ → List ℕ) (fresh : ℕ → List ℕ) (from : List ℕ) (position : ℕ)
    → Readable hdr disk
    → Apart hdr
    → ((k : ℕ) → length (fresh k) ≡ k)
    → 0 < length from
    → position + length from ≤ file_length hdr
    → Written hdr disk fresh from position (length from)
unfolding prepare
inside-Written hdr disk fresh from position s apart fr p h =
    let m = length from in
    let first = position / sector_size in
    let last = (position + m - 1) / sector_size in
    let num = 1 + last - first in
    let off = position - first * sector_size in
    let fa = position == first * sector_size in
    let la = position + m == (last + 1) * sector_size in
    let cover : off + m ≤ num * sector_size = omega arith in
    let (buf', e, r) =
      prepare-Ready hdr disk first last off m s (omega arith) (omega arith) (omega arith) cover fa
        la (fresh (num * sector_size))
        (λ t. omega (arith, (==_iff position (first * sector_size)).0 t))
        (λ t. omega (arith, (==_iff (position + m) ((last + 1) * sector_size)).0 t))
        (fr (num * sector_size)) in
    let (buf, e1, e2) =
      >>=-eq-some (fill_first hdr disk first fa (fresh (num * sector_size)))
        (λ b. fill_last hdr disk first last fa la b) e in
    let (disk', w, st) =
      write_sectors-Stores hdr disk num first (overlay buf' off from) s apart (omega arith)
        (length-overlay buf' off from (omega (arith, r.size_eq)) ∙ r.size_eq) in
    let place : first * sector_size + off ≡ position = omega arith in
    record {
      disk' = disk';
      buf = buf;
      buf' = buf';
      first_filled = e1;
      last_filled = e2;
      sectors_written = w;
      stores =
          subst (λ x. Stores hdr disk disk' x from) place
            (settled hdr disk disk' first off (num * sector_size) buf' from r cover st);
    }

write_at_within :
    (hdr : FileHeader) (disk : ℕ → List ℕ) (fresh : ℕ → List ℕ) (from : List ℕ) (n position m : ℕ)
    → 0 < n
    → position < file_length hdr
    → m ≡ min n (file_length hdr - position)
    → (w : Written hdr disk fresh (take m from) position m)
    → write_at hdr disk fresh from (pos n) position ≡ some (m, w.disk')
unfolding write_at
write_at_within hdr disk fresh from n position m p h e w =
    let clip : (if ltb (file_length hdr) (position + n) then file_length hdr - position else n)
        ≡ m =
      ground arith in
    let some_bytes : leb n 0 ≡ false = ground arith in
    let inside : leb (file_length hdr) position ≡ false = ground arith in
    rw (some_bytes, inside, clip, w.first_filled, w.last_filled, w.sectors_written) refl

write_at_nothing :
    (hdr : FileHeader) (disk : ℕ → List ℕ) (fresh : ℕ → List ℕ) (from : List ℕ) (n position : ℕ)
    → min n (file_length hdr - position) ≡ 0
    → write_at hdr disk fresh from (pos n) position ≡ some (0, disk)
unfolding write_at
write_at_nothing hdr disk fresh from n position e =
    let empty : (leb n 0 || leb (file_length hdr) position) ≡ true = ground arith in rw empty refl

-- For a header that names a sector of its own for every part of the file: `WriteAt` from a position
-- returns, and has written as many bytes as were given, but none behind the end of the file. Every other
-- byte of the file is as before, and so is every sector that is not the file's.
pub write_at-Stores :
    (hdr : FileHeader) (disk : ℕ → List ℕ) (fresh : ℕ → List ℕ) (from : List ℕ) (n position : ℕ)
    → Readable hdr disk
    → Apart hdr
    → ((k : ℕ) → length (fresh k) ≡ k)
    → n ≤ length from
    → (disk' : ℕ → List ℕ) × (write_at hdr disk fresh from (pos n) position
        ≡ some (min n (file_length hdr - position), disk'))
      × Stores hdr disk disk' position (take (min n (file_length hdr - position)) from)
write_at-Stores hdr disk fresh from n position s apart fr h =
    let m = min n (file_length hdr - position) in
    let z : length (take m from) ≡ m = length-take m from (omega arith) in
    elim (Bool-cases (ltb 0 m)) [
      | inl t ↦
          let some_bytes : 0 < m = ltb→lt 0 m t in
          let w =
            subst (λ x. Written hdr disk fresh (take m from) position x) z
              (inside-Written hdr disk fresh (take m from) position s apart fr (omega arith)
                (omega arith)) in
          (
            w.disk',
            write_at_within hdr disk fresh from n position m (omega arith) (omega arith) refl w,
            w.stores,
          )
      | inr t ↦
          let nothing : m ≡ 0 = omega (arith, ltb_false→le 0 m t) in
          (
            disk,
            write_at_nothing hdr disk fresh from n position nothing
                ∙ ap (λ x. some (x, disk)) (sym nothing),
            record {
              full = s.full;
              inside = λ j p q. absurd (omega arith);
              before = λ j p q. refl;
              behind = λ j p q. refl;
              elsewhere = λ k p. refl;
            },
          )
    ]
