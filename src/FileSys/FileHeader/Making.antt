-- ===== src/FileSys/FileHeader/Making.antt =====
-- A header that `Allocate` of nachos-3.4/code/filesys/filehdr.cc fills, with all that is known of it and of the map.
use n4ch0s.Base.{ℕ, length, true, List, ◌+◌, ◌^◌, ◌<◌, ◌≤◌, ◌≡◌, some, arith}
use n4ch0s.BitMap.{BitMap, IsValid, is_set, div_round_up}
use n4ch0s.BitMap.Takes.{free_count, is_set-Takes, Takes-IsValid, num_bits-Takes, free_count-Takes}
use n4ch0s.FileSys.FileHeader.{FileHeader, sector_size, allocate}
use n4ch0s.FileSys.FileHeader.Allocate.{Allocated, allocate-Allocated}
use n4ch0s.FileSys.FileHeader.Ints.{allocate_ints}
use n4ch0s.FileSys.Image.Laws.{All, IsInt, IsStorable}

pub record Made (hdr : FileHeader) (m : BitMap) (size : ℕ) : Type 0 where
  pub h : FileHeader
  pub m' : BitMap
  pub ks : List ℕ
  pub result : allocate hdr m size ≡ some (true, h, m')
  pub allocated : Allocated size h m m' ks
  pub storable : IsStorable h
  pub valid : IsValid m'
  pub bits : m'.num_bits ≡ m.num_bits
  pub left : free_count m ≡ free_count m' + div_round_up size sector_size
  pub still_set : (j : ℕ) → is_set m j ≡ true → is_set m' j ≡ true

pub allocate-Made :
    (hdr : FileHeader) (m : BitMap) (size : ℕ)
    → IsValid m
    → m.num_bits < 2 ^ 31
    → length hdr.data_sectors ≡ 126
    → All IsInt hdr.data_sectors
    → div_round_up size sector_size ≤ 126
    → div_round_up size sector_size ≤ free_count m
    → Made hdr m size
allocate-Made hdr m size v b l ints fits room =
    let (ks, h, m', e, a) = allocate-Allocated hdr m size v l fits room in
    record {
      h = h;
      m' = m';
      ks = ks;
      result = e;
      allocated = a;
      storable = record {
        bytes_fit = omega (arith, a.bytes);
        sectors_fit = omega (arith, a.sectors);
        all_there = a.size;
        ints = allocate_ints hdr h m m' size v b ints e;
      };
      valid = Takes-IsValid a.takes v;
      bits = num_bits-Takes a.takes;
      left = omega (arith, free_count-Takes a.takes, a.count, a.sectors);
      still_set = λ j p. ground (arith, is_set-Takes j a.takes, p);
    }
