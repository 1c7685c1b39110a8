-- ===== src/FileSys/FileHeader/Allocate.antt =====
-- `FileHeader::Allocate` of nachos-3.4/code/filesys/filehdr.cc.
use n4ch0s.Base.{
  ℕ, get_elem?, ◌+◌, ◌<◌, ◌≤◌, ◌≡◌, ◌∙◌, ◌∷◌, zero, suc, refl, true, false, some, List, [], arith,
  length, set, le→ltb_false, lt→ltb, sym, length-set, get_elem?-set_self, get_elem?-set_ne,
}
use n4ch0s.BitMap.{BitMap, IsValid, div_round_up, marked}
use n4ch0s.BitMap.Takes.{Takes, take, none_left, free_count, find_takes, free_count-marked}
use n4ch0s.Base.Int.{ℤ, pos}
use n4ch0s.FileSys.FileHeader.{
  FileHeader, allocate, num_direct, allocate_loop, sector_size, store_sector,
}
use n4ch0s.BitMap.Count.{num_clear-clear_from}
use n4ch0s.BitMap.Words.{marked-IsValid}

-- The sectors `ks` stand in the array from index `i` on.
abbrev pub Stored : List ℤ → ℕ → List ℕ → Type 0
Stored arr i [] = Unit {0}
Stored arr i (k ∷ ks) = (get_elem? arr i ≡ some (pos k)) × Stored arr (i + 1) ks

abbrev Below : ℕ → List ℤ → List ℤ → Type 0
Below i arr arr' = (j : ℕ) → j < i → get_elem? arr' j ≡ get_elem? arr j

-- What a successful run leaves: the taken bits, listed in the array, and the old entries.
record Filled (i n : ℕ) (hdr hdr' : FileHeader) (m m' : BitMap) (ks : List ℕ) : Type 0 where
  takes : Takes m' m ks
  count : length ks ≡ n
  stored : Stored hdr'.data_sectors i ks
  below : Below i hdr.data_sectors hdr'.data_sectors
  size : length hdr'.data_sectors ≡ num_direct
  bytes : hdr'.num_bytes ≡ hdr.num_bytes
  sectors : hdr'.num_sectors ≡ hdr.num_sectors

allocate_loop-Filled :
    (n i : ℕ) (hdr : FileHeader) (m : BitMap)
    → IsValid m
    → n ≤ free_count m
    → n + i ≤ num_direct
    → length hdr.data_sectors ≡ num_direct
    → (ks : List ℕ) × (hdr' : FileHeader) × (m' : BitMap) × (allocate_loop n i hdr m
        ≡ some (hdr', m'))
      × Filled i n hdr hdr' m m' ks
unfolding allocate_loop store_sector
allocate_loop-Filled zero i hdr m v enough fits size = (
  [],
  hdr,
  m,
  refl,
  record {
    takes = none_left;
    count = refl;
    stored = tt;
    below = λ j h. refl;
    size = size;
    bytes = refl;
    sectors = refl;
  },
)
allocate_loop-Filled (suc n) i hdr m v enough fits size =
    let (k, found, inside, free) = find_takes v (omega arith) in
    let next : FileHeader = record hdr { data_sectors = set hdr.data_sectors i (pos k) } in
    let (ks, hdr', m', e, f) =
      allocate_loop-Filled n (i + 1) next (marked m k) (marked-IsValid k v inside)
        (omega (arith, free_count-marked k v inside free)) (omega arith)
        (length-set hdr.data_sectors i (pos k) ∙ size) in
    (
      k ∷ ks,
      hdr',
      m',
      rw (found, lt→ltb i num_direct (omega arith)) e,
      record {
        takes = take v inside free f.takes;
        count = omega (arith, f.count);
        stored = (
          f.below i (omega arith) ∙ get_elem?-set_self hdr.data_sectors i (pos k) (omega arith),
          f.stored,
        );
        below = λ j h.
            f.below j (omega arith) ∙ get_elem?-set_ne hdr.data_sectors i j (pos k) (omega arith);
        size = f.size;
        bytes = f.bytes;
        sectors = f.sectors;
      },
    )

-- A fresh header holds an array of `NumDirect` entries.
pub record Allocated (file_size : ℕ) (hdr : FileHeader) (m m' : BitMap) (ks : List ℕ) : Type 0 where
  pub takes : Takes m' m ks
  pub count : length ks ≡ hdr.num_sectors
  pub stored : Stored hdr.data_sectors 0 ks
  pub size : length hdr.data_sectors ≡ num_direct
  pub bytes : hdr.num_bytes ≡ file_size
  pub sectors : hdr.num_sectors ≡ div_round_up file_size sector_size

-- On a valid map and a header of `NumDirect` places, with enough clear bits and a size of at most
-- `MaxFileSize`, `Allocate` succeeds: the header lists one sector for each started block, taken from
-- the map in that order, each of them clear when its turn came and marked from then on.
pub allocate-Allocated :
    (hdr : FileHeader) (m : BitMap) (file_size : ℕ)
    → IsValid m
    → length hdr.data_sectors ≡ num_direct
    → div_round_up file_size sector_size ≤ num_direct
    → div_round_up file_size sector_size ≤ free_count m
    → (ks : List ℕ) × (hdr' : FileHeader) × (m' : BitMap) × (allocate hdr m file_size
        ≡ some (true, hdr', m'))
      × Allocated file_size hdr' m m' ks
unfolding allocate
allocate-Allocated hdr m file_size v size fits enough =
    let sectors = div_round_up file_size sector_size in
    let (ks, hdr', m', e, f) =
      allocate_loop-Filled sectors 0 (record hdr { num_bytes = file_size; num_sectors = sectors }) m
        v enough (omega arith) size in
    (
      ks,
      hdr',
      m',
      rw (num_clear-clear_from m, le→ltb_false (free_count m) sectors enough, e) refl,
      record {
        takes = f.takes;
        count = f.count ∙ sym f.sectors;
        stored = f.stored;
        size = f.size;
        bytes = f.bytes;
        sectors = f.sectors;
      },
    )

-- With fewer clear bits than the size needs `Allocate` returns FALSE and leaves the map as it was.
pub allocate_refuses :
    (hdr : FileHeader) (m : BitMap) (file_size : ℕ)
    → free_count m < div_round_up file_size sector_size
    → (hdr' : FileHeader) × (allocate hdr m file_size ≡ some (false, hdr', m))
unfolding allocate
allocate_refuses hdr m file_size short =
    let sectors = div_round_up file_size sector_size in
    (
      record hdr { num_bytes = file_size; num_sectors = sectors },
      rw (num_clear-clear_from m, lt→ltb (free_count m) sectors short) refl,
    )
