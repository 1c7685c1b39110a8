-- ===== src/FileSys/FileHeader/Deallocate.antt =====
-- `FileHeader::Deallocate` of nachos-3.4/code/filesys/filehdr.cc, and that it undoes `Allocate`.
use n4ch0s.Base.{
  ℕ, ◌+◌, ◌<◌, ◌≤◌, ◌≡◌, ◌&&◌, ◌∷◌, zero, suc, refl, true, false, not, some, List, [], arith,
  length, has, Distinct, ==_self,
}
use n4ch0s.BitMap.{BitMap, IsValid, is_set, div_round_up, cleared}
use n4ch0s.BitMap.Takes.{
  Takes, Takes_clear, Takes-Distinct, is_set-Takes, num_bits-Takes, free_count, take, Takes-IsValid,
  none_left,
}
use n4ch0s.FileSys.FileHeader.Allocate.{Stored, allocate-Allocated}
use n4ch0s.FileSys.FileHeader.{
  deallocate, FileHeader, deallocate_loop, num_direct, sector_size, allocate,
}
use n4ch0s.BitMap.Words.{
  is_set-marked, is_set-cleared, cleared-IsValid, test-is_set, marked-IsValid, clear-cleared,
}

-- All of `ks` are marked bits of the map.
abbrev pub AllMarked : BitMap → List ℕ → Type 0
AllMarked m [] = Unit {0}
AllMarked m (k ∷ ks) = (k < m.num_bits) × (is_set m k ≡ true) × AllMarked m ks

-- The map `q` is `m` less the bits `ks`.
pub record Less (m q : BitMap) (ks : List ℕ) : Type 0 where
  pub valid : IsValid q
  pub bits : q.num_bits ≡ m.num_bits
  pub view : (j : ℕ) → is_set q j ≡ (not (has j ks) && is_set m j)

AllMarked-cleared :
    (m : BitMap) (k : ℕ) (ks : List ℕ)
    → IsValid m
    → k < m.num_bits
    → has k ks ≡ false
    → AllMarked m ks
    → AllMarked (cleared m k) ks
AllMarked-cleared m k [] v lt fresh all = tt
AllMarked-cleared m k (l ∷ ks) v lt fresh (lt', used, all) =
    (lt', ground (arith, is_set-cleared k v lt l), AllMarked-cleared m k ks v lt (ground arith) all)

deallocate_loop-Less :
    (n i : ℕ) (hdr : FileHeader) (m : BitMap) (ks : List ℕ)
    → IsValid m
    → length ks ≡ n
    → Stored hdr.data_sectors i ks
    → Distinct ks
    → AllMarked m ks
    → (q : BitMap) × (deallocate_loop n i hdr m ≡ some q) × Less m q ks
unfolding deallocate_loop
deallocate_loop-Less zero i hdr m [] v e stored apart all =
    (m, refl, record { valid = v; bits = refl; view = λ j. refl })
deallocate_loop-Less zero i hdr m (k ∷ ks) v e stored apart all = absurd (omega arith)
deallocate_loop-Less (suc n) i hdr m [] v e stored apart all = absurd (omega arith)
deallocate_loop-Less (suc n) i hdr m (k ∷ ks) v e (here, stored) (fresh, apart) (lt, used, all) =
    let (q, r, f) =
      deallocate_loop-Less n (i + 1) hdr (cleared m k) ks (cleared-IsValid k v lt) (omega arith)
        stored apart (AllMarked-cleared m k ks v lt fresh all) in
    (
      q,
      rw (here, test-is_set m k lt, used, clear-cleared k v lt) r,
      record {
        valid = f.valid;
        bits = f.bits;
        view = λ j. ground (arith, f.view j, is_set-cleared k v lt j);
      },
    )

-- A header that lists distinct marked sectors gives exactly those back.
pub deallocate-Less :
    (hdr : FileHeader) (m : BitMap) (ks : List ℕ)
    → IsValid m
    → length ks ≡ hdr.num_sectors
    → Stored hdr.data_sectors 0 ks
    → Distinct ks
    → AllMarked m ks
    → (q : BitMap) × (deallocate hdr m ≡ some q) × Less m q ks
unfolding deallocate
deallocate-Less hdr m ks v e stored apart all =
    deallocate_loop-Less hdr.num_sectors 0 hdr m ks v e stored apart all

pub Takes-AllMarked : {m' m : BitMap} {ks : List ℕ} → IsValid m → Takes m' m ks → AllMarked m' ks
Takes-AllMarked v none_left = tt
Takes-AllMarked {m'} v (take {m} {k} {ks} w lt free t) = (
  ground (arith, num_bits-Takes t),
  ground (arith, is_set-Takes k t, is_set-marked k w lt k, ==_self k),
  Takes-AllMarked (marked-IsValid k w lt) t,
)

-- On a valid map with enough clear bits, a header of `NumDirect` places and a size of at most
-- `MaxFileSize`, `Allocate` succeeds, and `Deallocate` after it fails no ASSERT and leaves every bit as
-- it was before.
pub deallocate-allocate :
    (hdr : FileHeader) (m : BitMap) (file_size : ℕ)
    → IsValid m
    → length hdr.data_sectors ≡ num_direct
    → div_round_up file_size sector_size ≤ num_direct
    → div_round_up file_size sector_size ≤ free_count m
    → (hdr' : FileHeader) × (m' : BitMap) × (q : BitMap) × (allocate hdr m file_size
        ≡ some (true, hdr', m'))
      × (deallocate hdr' m' ≡ some q)
      × ((j : ℕ) → is_set q j ≡ is_set m j)
deallocate-allocate hdr m file_size v size fits enough =
    let (ks, hdr', m', e, a) = allocate-Allocated hdr m file_size v size fits enough in
    let (q, d, f) =
      deallocate-Less hdr' m' ks (Takes-IsValid a.takes v) a.count a.stored (Takes-Distinct a.takes)
        (Takes-AllMarked v a.takes) in
    (hdr', m', q, e, d, λ j. restored ks m m' q j a.takes (f.view j))
  where
    restored :
        (ks : List ℕ) (m m' q : BitMap) (j : ℕ)
        → Takes m' m ks
        → is_set q j ≡ (not (has j ks) && is_set m' j)
        → is_set q j ≡ is_set m j
    restored ks m m' q j t e = ground (arith, e, is_set-Takes j t, Takes_clear j t)
