-- ===== src/FileSys/FileSystem/Reserving.antt =====
-- The sectors that the constructor of nachos-3.4/code/filesys/filesys.cc takes on a disk that is formatted.
use n4ch0s.Base.{
  ℕ, length, true, false, List, ◌∙◌, sym, zero, suc, Bool, ◌+◌, ◌<◌, ◌≤◌, ◌≡◌, refl, some, arith,
  ◌∷◌, [],
}
use n4ch0s.Base.Int.{pos}
use n4ch0s.BitMap
use n4ch0s.BitMap.{BitMap, IsValid, is_set, marked, div_round_up}
use n4ch0s.BitMap.Count.{clear_from}
use n4ch0s.BitMap.Search.{init-test}
use n4ch0s.BitMap.Words.{is_set-marked, marked-IsValid, test-is_set, mark-marked}
use n4ch0s.BitMap.Takes.{free_count, free_count-marked}
use n4ch0s.Disk.{num_sectors}
use n4ch0s.FileSys.Directory
use n4ch0s.FileSys.Directory.{Directory, Entry}
use n4ch0s.FileSys.FileHeader.{FileHeader}
use n4ch0s.FileSys.FileSystem.{Memory}
use n4ch0s.FileSys.FileSystem.Mounted.{IsReady}
use n4ch0s.FileSys.Image.Laws.{All, IsEntry, IsInt}
use mathlib.Core.Option.{some-injective}
use n4ch0s.FileSys.FileHeader.Making.{Made, allocate-Made}

-- The map with the sectors of the two headers marked.
pub record Reserved (f : Memory) : Type 0 where
  pub m0 : BitMap
  pub made : BitMap.init num_sectors f.words ≡ some m0
  pub first : BitMap.mark m0 (pos 0) ≡ some (marked m0 0)
  pub second : BitMap.mark (marked m0 0) (pos 1) ≡ some (marked (marked m0 0) 1)
  pub valid : IsValid (marked (marked m0 0) 1)
  pub bits : (marked (marked m0 0) 1).num_bits ≡ num_sectors
  pub room : free_count (marked (marked m0 0) 1) ≡ 1022
  pub zero_set : is_set (marked (marked m0 0) 1) 0 ≡ true
  pub one_set : is_set (marked (marked m0 0) 1) 1 ≡ true

all_clear :
    (s : ℕ → Bool) (i n : ℕ) → ((k : ℕ) → i ≤ k → k < i + n → s k ≡ false) → clear_from s i n ≡ n
all_clear s i zero h = refl
all_clear s i (suc n) h = ground (
  arith,
  h i (omega arith) (omega arith),
  all_clear s (i + 1) n (λ k p q. h k (omega arith) (omega arith)),
)

some_same : (a b : Bool) → some a ≡ some b → a ≡ b
some_same a b e = some-injective _ _ e

reserve-Reserved : (f : Memory) → IsReady f → Reserved f
reserve-Reserved f ready =
    let (m0, e, v, n, clear) = init-test num_sectors f.words ready.words ready.small in
    let free : (k : ℕ) → k < num_sectors → is_set m0 k ≡ false =
      λ k p. some_same (is_set m0 k) false (sym (test-is_set m0 k (omega arith)) ∙ clear k p) in
    let v0 = marked-IsValid 0 v (omega arith) in
    let full : free_count m0 ≡ m0.num_bits =
      all_clear (is_set m0) 0 m0.num_bits (λ k p q. free k (omega arith)) in
    let still : is_set (marked m0 0) 1 ≡ false =
      ground (arith, is_set-marked 0 v (omega arith) 1, free 1 (omega arith)) in
    record {
      m0 = m0;
      made = e;
      first = mark-marked 0 v (omega arith);
      second = mark-marked 1 v0 (omega arith);
      valid = marked-IsValid 1 v0 (omega arith);
      bits = n;
      room = omega (
        arith,
        free_count-marked 0 v (omega arith) (free 0 (omega arith)),
        free_count-marked 1 v0 (omega arith) still,
      );
      zero_set = is_set-marked 1 v0 (omega arith) 0 ∙ is_set-marked 0 v (omega arith) 0;
      one_set = is_set-marked 1 v0 (omega arith) 1;
    }

pub init-entries : (es : List Entry) → All IsEntry es → All IsEntry (Directory.init es)
unfolding Directory.init
init-entries [] h = tt
init-entries (e ∷ es) h = (h.0, init-entries es h.1)

-- The headers of the map and of the directory, with their sectors.
pub record Laid (f : Memory) (map_hdr dir_hdr : FileHeader) : Type 0 where
  pub reserved : Reserved f
  pub map_made : Made map_hdr (marked (marked reserved.m0 0) 1) 128
  pub dir_made : Made dir_hdr map_made.m' 200

pub lay-Laid :
    (f : Memory) (map_hdr dir_hdr : FileHeader)
    → IsReady f
    → (length map_hdr.data_sectors ≡ 126) × All IsInt map_hdr.data_sectors
    → (length dir_hdr.data_sectors ≡ 126) × All IsInt dir_hdr.data_sectors
    → Laid f map_hdr dir_hdr
lay-Laid f map_hdr dir_hdr ready p q =
    let r = reserve-Reserved f ready in
    let a =
      allocate-Made map_hdr (marked (marked r.m0 0) 1) 128 r.valid (omega (arith, r.bits)) p.0 p.1
        (omega arith) (omega (arith, r.room)) in
    let b =
      allocate-Made dir_hdr a.m' 200 a.valid (omega (arith, r.bits, a.bits)) q.0 q.1 (omega arith)
        (omega (arith, r.room, a.left)) in
    record { reserved = r; map_made = a; dir_made = b }
