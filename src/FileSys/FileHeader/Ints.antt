-- ===== src/FileSys/FileHeader/Ints.antt =====
-- `Allocate` of nachos-3.4/code/filesys/filehdr.cc stores ints in the header.
use n4ch0s.Base.{
  ℕ, zero, suc, set, List, >>=-eq-some, some, ltb, ◌^◌, ◌<◌, ◌≡◌, ◌∷◌, [], inl, inr, Bool-cases,
  ◌+◌, ◌∙◌, refl, true, none, arith, false, Bool, Option,
}
use n4ch0s.Base.Int.{ℤ}
use n4ch0s.BitMap.{BitMap, IsValid, marked, div_round_up}
use n4ch0s.BitMap
use n4ch0s.BitMap.Search.{find-Finds}
use n4ch0s.BitMap.Words.{marked-IsValid}
use n4ch0s.FileSys.FileHeader.{
  FileHeader, allocate, allocate_loop, store_sector, num_direct, sector_size,
}
use n4ch0s.FileSys.Image.Laws.{All, IsInt}
use mathlib.Core.Path.{subst, sym}
use mathlib.Core.Option.{some-injective}

All-set : (xs : List ℤ) (i : ℕ) (v : ℤ) → All IsInt xs → IsInt v → All IsInt (set xs i v)
All-set [] i v h g = tt
All-set (x ∷ xs) zero v h g = (g, h.1)
All-set (x ∷ xs) (suc i) v h g = (h.0, All-set xs i v h.1 g)

store_sector-ints :
    (hdr hdr' : FileHeader) (i : ℕ) (v : ℤ)
    → store_sector hdr i v ≡ some hdr'
    → All IsInt hdr.data_sectors
    → IsInt v
    → All IsInt hdr'.data_sectors
unfolding store_sector
store_sector-ints hdr hdr' i v e h g = elim (Bool-cases (ltb i num_direct)) [
  | inl t ↦
      subst (λ x. All IsInt x.data_sectors) (some-injective _ _ (rw (store_sector, t) at e))
        (All-set hdr.data_sectors i v h g)
  | inr t ↦ (let p : none ≡ some hdr' = rw (store_sector, t) at e in cc)
]

abbrev Found : BitMap → ℤ × BitMap → Type 0
Found m (s, m') = IsInt s × IsValid m' × (m'.num_bits ≡ m.num_bits)

-- What `Find` returns is an int, and the map stays valid.
find_int :
    (m m' : BitMap) (s : ℤ)
    → IsValid m
    → m.num_bits < 2 ^ 31
    → BitMap.find m ≡ some (s, m')
    → Found m (s, m')
find_int m m' s v b e = elim (find-Finds v) [
  | inl (k, f) ↦
      subst (Found m) (some-injective _ _ (sym f.result ∙ e))
        (omega (arith, f.inside), marked-IsValid k v f.inside, refl)
  | inr (all, r) ↦ subst (Found m) (some-injective _ _ (sym r ∙ e)) (omega arith, v, refl)
]

allocate_loop-ints :
    (n i : ℕ) (hdr hdr' : FileHeader) (m m' : BitMap)
    → IsValid m
    → m.num_bits < 2 ^ 31
    → All IsInt hdr.data_sectors
    → allocate_loop n i hdr m ≡ some (hdr', m')
    → All IsInt hdr'.data_sectors
unfolding allocate_loop
allocate_loop-ints zero i hdr hdr' m m' v b h e =
    subst (λ x. All IsInt x.0.data_sectors) (some-injective _ _ e) h
allocate_loop-ints (suc n) i hdr hdr' m m' v b h e =
    let ((sector, m1), e1, r1) = >>=-eq-some (BitMap.find m) _ e in
    let (hdr1, e2, r2) = >>=-eq-some (store_sector hdr i sector) _ r1 in
    let (int, v1, b1) = find_int m m1 sector v b e1 in
    allocate_loop-ints n (i + 1) hdr1 hdr' m1 m' v1 (omega arith)
      (store_sector-ints hdr hdr1 i sector e2 h int) r2

refused :
    (h h' : FileHeader) (m m' : BitMap)
    → (let r : Option (Bool × FileHeader × BitMap) = some (false, h, m) in r ≡ some (true, h', m'))
    → ⊥
refused h h' m m' e = cc

-- A header of ints stays one.
pub allocate_ints :
    (hdr hdr' : FileHeader) (m m' : BitMap) (size : ℕ)
    → IsValid m
    → m.num_bits < 2 ^ 31
    → All IsInt hdr.data_sectors
    → allocate hdr m size ≡ some (true, hdr', m')
    → All IsInt hdr'.data_sectors
unfolding allocate
allocate_ints hdr hdr' m m' size v b h e =
    let (clear, e1, r1) = >>=-eq-some (BitMap.num_clear m) _ e in
    let sectors = div_round_up size sector_size in
    let sized : FileHeader = record hdr { num_bytes = size; num_sectors = sectors } in
    elim (Bool-cases (ltb clear sectors)) [
      | inl t ↦ absurd (refused sized hdr' m m' (rw t at r1))
      | inr t ↦
          let ((h2, m2), e2, r2) = >>=-eq-some (allocate_loop sectors 0 sized m) _ (rw t at r1) in
          subst (λ x. All IsInt x.1.data_sectors) (some-injective _ _ r2)
            (allocate_loop-ints sectors 0 sized h2 m m2 v b h e2)
    ]
