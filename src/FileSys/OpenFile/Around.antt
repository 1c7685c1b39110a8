-- ===== src/FileSys/OpenFile/Around.antt =====
-- The buffer of `WriteAt` of nachos-3.4/code/filesys/openfile.cc: around the new bytes it holds what the file has.
use n4ch0s.Base.{
  ltb→lt, ltb_false→le, Bool-cases, ltb, ==_iff, ◌==◌, ◌∙◌, sym, min, ◌>>=◌, not, ◌+◌, ◌-◌, ◌*◌,
  ◌<◌, ◌≤◌, ◌≡◌, ℕ, refl, ap, Bool, true, false, Option, some, List, inl, inr, arith, length,
  get_or, ◌≢◌, ◌||◌,
}
use n4ch0s.Base.Int.{pos}
use n4ch0s.FileSys.FileHeader.{FileHeader, sector_size, file_length}
use n4ch0s.FileSys.OpenFile.{read_at, fill_first, fill_last, overlay}
use n4ch0s.FileSys.OpenFile.Buffer.{length-overlay, overlay_before, overlay_inside, overlay_behind}
use n4ch0s.FileSys.OpenFile.Reading.{Readable, file_byte, read_at-Reads}
use n4ch0s.FileSys.OpenFile.Stored.{Stores}

-- The sector that stands at `o` in the buffer has been read into it.
record Fills (hdr : FileHeader) (disk : ℕ → List ℕ) (start o : ℕ) (buf buf' : List ℕ) : Type 0 where
  size : length buf' ≡ length buf
  own :
      (j : ℕ)
      → o ≤ j
      → j < o + sector_size
      → start + j < file_length hdr
      → get_or buf' j 0 ≡ file_byte hdr disk (start + j)
  before : (j : ℕ) → j < o → get_or buf' j 0 ≡ get_or buf j 0

fill-Fills :
    (hdr : FileHeader) (disk : ℕ → List ℕ) (start o q : ℕ) (buf : List ℕ)
    → Readable hdr disk
    → start + o ≡ q
    → o + sector_size ≤ length buf
    → (buf' : List ℕ) × ((read_at hdr disk (pos sector_size) q >>= λ bytes.
          some (overlay buf o bytes))
        ≡ some buf')
      × Fills hdr disk start o buf buf'
fill-Fills hdr disk start o q buf s e f =
    let r = read_at-Reads hdr disk sector_size q s in
    let l : length r.bytes ≡ min sector_size (file_length hdr - q) = r.full in
    let fits : o + length r.bytes ≤ length buf = omega arith in
    (
      overlay buf o r.bytes,
      rw r.eq refl,
      record {
        size = length-overlay buf o r.bytes fits;
        own = λ j p g h.
            (let place : q + (j - o) ≡ start + j = omega arith in
              overlay_inside buf o r.bytes fits j p (omega arith)
              ∙ r.same (j - o) (omega arith)
              ∙ ap (λ x. file_byte hdr disk x) place);
        before = λ j p. overlay_before buf o r.bytes fits j p;
      },
    )

-- The buffer before the new bytes are copied: around them stands what the file holds.
pub record Ready (hdr : FileHeader) (disk : ℕ → List ℕ) (start off m size : ℕ) (buf : List ℕ)
    : Type 0 where
  pub size_eq : length buf ≡ size
  pub low :
      (j : ℕ)
      → j < off
      → start + j < file_length hdr
      → get_or buf j 0 ≡ file_byte hdr disk (start + j)
  pub high :
      (j : ℕ)
      → off + m ≤ j
      → j < size
      → start + j < file_length hdr
      → get_or buf j 0 ≡ file_byte hdr disk (start + j)

module _ (hdr : FileHeader) (disk : ℕ → List ℕ) (first last off m : ℕ) (s : Readable hdr disk)
    (order : first ≤ last) (least : off < sector_size)
    (reach : (last - first) * sector_size < off + m)
    (cover : off + m ≤ (1 + last - first) * sector_size) where
  unfoldable pub prepare : Bool → Bool → List ℕ → Option (List ℕ)
  prepare fa la buf =
      fill_first hdr disk first fa buf >>= λ b. fill_last hdr disk first last fa la b

  pub prepare-Ready :
      (fa la : Bool) (buf : List ℕ)
      → (fa ≡ true → off ≡ 0)
      → (la ≡ true → off + m ≡ (1 + last - first) * sector_size)
      → length buf ≡ (1 + last - first) * sector_size
      → (buf' : List ℕ) × (prepare fa la buf ≡ some buf')
        × Ready hdr disk (first * sector_size) off m ((1 + last - first) * sector_size) buf'
  unfolding prepare fill_first fill_last
  prepare-Ready true true buf f l z = (
    buf,
    refl,
    record {
      size_eq = z;
      low = λ j p. absurd (omega (arith, f refl));
      high = λ j p q. absurd (omega (arith, l refl));
    },
  )
  prepare-Ready true false buf f l z =
      let (b, e, r) =
        fill-Fills hdr disk (first * sector_size) ((last - first) * sector_size)
          (last * sector_size) buf s (omega arith) (omega arith) in
      let both : (not (first == last) || true) ≡ true = ground arith in
      (
        b,
        rw both e,
        record {
          size_eq = r.size ∙ z;
          low = λ j p q. absurd (omega (arith, f refl));
          high = λ j p t q. r.own j (omega arith) (omega arith) q;
        },
      )
  prepare-Ready false true buf f l z =
      let (b, e, r) =
        fill-Fills hdr disk (first * sector_size) 0 (first * sector_size) buf s (omega arith)
          (omega arith) in
      (
        b,
        rw e refl,
        record {
          size_eq = r.size ∙ z;
          low = λ j p q. r.own j (omega arith) (omega arith) q;
          high = λ j p q. absurd (omega (arith, l refl));
        },
      )
  prepare-Ready false false buf f l z =
      let (b, e, r) =
        fill-Fills hdr disk (first * sector_size) 0 (first * sector_size) buf s (omega arith)
          (omega arith) in
      let (b', e', r') =
        fill-Fills hdr disk (first * sector_size) ((last - first) * sector_size)
          (last * sector_size) b s (omega arith) (omega (arith, r.size)) in
      elim (Bool-cases (first == last)) [
        | inl t ↦
            (let one : first ≡ last = (==_iff first last).0 t in
              (
                b,
                rw (e, t) refl,
                record {
                  size_eq = r.size ∙ z;
                  low = λ j p q. r.own j (omega arith) (omega arith) q;
                  high = λ j p g q. r.own j (omega arith) (omega arith) q;
                },
              ))
        | inr t ↦
            (let two : first ≢ last = λ x. absurd (ground (arith, t, x)) in
              (
                b',
                rw (e, t) e',
                record {
                  size_eq = r'.size ∙ r.size ∙ z;
                  low = λ j p q. r'.before j (omega arith) ∙ r.own j (omega arith) (omega arith) q;
                  high = λ j p g q. r'.own j (omega arith) (omega arith) q;
                },
              ))
      ]

-- The buffer with the new bytes is written over whole sectors of the file.
pub settled :
    (hdr : FileHeader) (disk disk' : ℕ → List ℕ) (first off size : ℕ) (buf from : List ℕ)
    → Ready hdr disk (first * sector_size) off (length from) size buf
    → off + length from ≤ size
    → Stores hdr disk disk' (first * sector_size) (overlay buf off from)
    → Stores hdr disk disk' (first * sector_size + off) from
settled hdr disk disk' first off size buf from r f w =
    let start = first * sector_size in
    let fits : off + length from ≤ length buf = omega (arith, r.size_eq) in
    let z : length (overlay buf off from) ≡ size = length-overlay buf off from fits ∙ r.size_eq in
    record {
      full = w.full;
      inside = λ j p q.
          (let place : start + (off + j) ≡ start + off + j = omega arith in
            let back : off + j - off ≡ j = omega arith in
            sym (ap (λ x. file_byte hdr disk' x) place)
            ∙ w.inside (off + j) (omega arith) (omega arith)
            ∙ overlay_inside buf off from fits (off + j) (omega arith) (omega arith)
            ∙ ap (λ x. get_or from x 0) back);
      before = λ j p q. elim (Bool-cases (ltb j start)) [
        | inl t ↦ w.before j (ltb→lt j start t) q
        | inr t ↦
            let place : start + (j - start) ≡ j = omega (arith, ltb_false→le j start t) in
            sym (ap (λ x. file_byte hdr disk' x) place)
            ∙ w.inside (j - start) (omega arith) (omega arith)
            ∙ overlay_before buf off from fits (j - start) (omega arith)
            ∙ r.low (j - start) (omega arith) (omega arith)
            ∙ ap (λ x. file_byte hdr disk x) place
      ];
      behind = λ j p q. elim (Bool-cases (ltb j (start + size))) [
        | inl t ↦
            let under : j < start + size = ltb→lt j (start + size) t in
            let place : start + (j - start) ≡ j = omega arith in
            sym (ap (λ x. file_byte hdr disk' x) place)
            ∙ w.inside (j - start) (omega arith) (omega arith)
            ∙ overlay_behind buf off from fits (j - start) (omega arith)
            ∙ r.high (j - start) (omega arith) (omega arith) (omega arith)
            ∙ ap (λ x. file_byte hdr disk x) place
        | inr t ↦ w.behind j (omega (arith, ltb_false→le j (start + size) t)) q
      ];
      elsewhere = w.elsewhere;
    }
