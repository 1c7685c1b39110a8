-- ===== src/FileSys/FileHeader/Sectors.antt =====
-- The sectors that `Allocate` of nachos-3.4/code/filesys/filehdr.cc gives a file are its own.
use n4ch0s.Base.{
  ℕ, zero, suc, length, get_elem?, has, Distinct, List, ◌+◌, ◌/◌, ◌<◌, ◌≡◌, ◌∙◌, ◌∷◌, refl, ap,
  true, some, [], arith, sym,
}
use n4ch0s.Base.Int.{ℤ, pos, pos_part}
use n4ch0s.BitMap.{BitMap, div_round_up}
use n4ch0s.BitMap.Takes.{Takes, none_left, take, Takes-Distinct}
use n4ch0s.FileSys.FileHeader.{FileHeader, sector_size, file_length}
use n4ch0s.FileSys.FileHeader.Allocate.{Stored, Allocated}
use mathlib.Core.Option.{some-injective}
use native.Mathlib.Decide.{ℕ_discrete}

nth : (ks : List ℕ) (q : ℕ) → q < length ks → (k : ℕ) × (get_elem? ks q ≡ some k)
nth [] q h = absurd (omega arith)
nth (k ∷ ks) zero h = (k, refl)
nth (k ∷ ks) (suc q) h = nth ks q (omega arith)

pub has-nth : (ks : List ℕ) (q k : ℕ) → get_elem? ks q ≡ some k → has k ks ≡ true
has-nth [] q k e = cc
has-nth (x ∷ ks) zero k e = ground (arith, some-injective _ _ e)
has-nth (x ∷ ks) (suc q) k e = ground (arith, has-nth ks q k e)

Stored-nth :
    (arr : List ℤ) (i : ℕ) (ks : List ℕ) (q k : ℕ)
    → Stored arr i ks
    → get_elem? ks q ≡ some k
    → get_elem? arr (i + q) ≡ some (pos k)
Stored-nth arr i [] q k s e = cc
Stored-nth arr i (x ∷ ks) zero k s e =
    let here : i + 0 ≡ i = omega arith in
    ap (λ y. get_elem? arr y) here ∙ s.0 ∙ ap (λ y. some (pos y)) (some-injective _ _ e)
Stored-nth arr i (x ∷ ks) (suc q) k s e =
    let next : i + suc q ≡ i + 1 + q = omega arith in
    ap (λ y. get_elem? arr y) next ∙ Stored-nth arr (i + 1) ks q k s.1 e

Takes_within :
    {m' m : BitMap} {ks : List ℕ} (j : ℕ) → Takes m' m ks → has j ks ≡ true → j < m.num_bits
Takes_within j none_left h = cc
Takes_within j (take {m} {k} {ks} v lt free t) h = elim (ℕ_discrete k j) [
  | yes e ↦ omega arith
  | no e ↦ Takes_within j t (ground arith)
]

Distinct-nth :
    (ks : List ℕ) (p q k : ℕ)
    → Distinct ks
    → get_elem? ks p ≡ some k
    → get_elem? ks q ≡ some k
    → p ≡ q
Distinct-nth [] p q k d e g = cc
Distinct-nth (x ∷ ks) zero zero k d e g = refl
Distinct-nth (x ∷ ks) zero (suc q) k d e g =
    absurd (ground (arith, d.0, has-nth ks q k g, some-injective _ _ e))
Distinct-nth (x ∷ ks) (suc p) zero k d e g =
    absurd (ground (arith, d.0, has-nth ks p k e, some-injective _ _ g))
Distinct-nth (x ∷ ks) (suc p) (suc q) k d e g = ap suc (Distinct-nth ks p q k d.1 e g)

pos_same : (a b : ℕ) → some (pos a) ≡ some (pos b) → a ≡ b
pos_same a b e = ap pos_part (some-injective _ _ e)

covered : (i size : ℕ) → i < size → i / sector_size < div_round_up size sector_size
covered i size h = grind arith

module _ {size : ℕ} {h : FileHeader} {m m' : BitMap} {ks : List ℕ}
    (a : Allocated size h m m' ks) where
  pub sector_at_byte :
      (i : ℕ)
      → i < file_length h
      → (k : ℕ) × (get_elem? h.data_sectors (i / sector_size) ≡ some (pos k))
        × (k < m.num_bits)
        × (get_elem? ks (i / sector_size) ≡ some k)
  unfolding file_length
  sector_at_byte i p =
      let (k, e) =
        nth ks (i / sector_size)
          (omega (arith, covered i size (omega (arith, a.bytes)), a.sectors, a.count)) in
      let first : 0 + i / sector_size ≡ i / sector_size = omega arith in
      (
        k,
        ap (λ y. get_elem? h.data_sectors y) (sym first)
            ∙ Stored-nth h.data_sectors 0 ks (i / sector_size) k a.stored e,
        Takes_within k a.takes (has-nth ks (i / sector_size) k e),
        e,
      )

  pub sectors_apart :
      (i j k : ℕ)
      → i < file_length h
      → j < file_length h
      → get_elem? h.data_sectors (i / sector_size) ≡ some (pos k)
      → get_elem? h.data_sectors (j / sector_size) ≡ some (pos k)
      → i / sector_size ≡ j / sector_size
  sectors_apart i j k p q e g =
      let (k1, e1, b1, r1) = sector_at_byte i p in
      let (k2, e2, b2, r2) = sector_at_byte j q in
      let s1 : k1 ≡ k = pos_same k1 k (sym e1 ∙ e) in
      let s2 : k2 ≡ k = pos_same k2 k (sym e2 ∙ g) in
      Distinct-nth ks (i / sector_size) (j / sector_size) k (Takes-Distinct a.takes)
        (r1 ∙ ap some s1) (r2 ∙ ap some s2)

  -- A sector of the file was taken from the map.
  pub sector_taken :
      (j k : ℕ)
      → j < file_length h
      → get_elem? h.data_sectors (j / sector_size) ≡ some (pos k)
      → has k ks ≡ true
  sector_taken j k p e =
      let (k', e', b, r) = sector_at_byte j p in
      has-nth ks (j / sector_size) k (r ∙ ap some (pos_same k' k (sym e' ∙ e)))
