-- ===== src/FileSys/OpenFile/Tests.antt =====
-- A file of nachos-3.4/code/filesys/openfile.cc with 600 bytes in two sectors, which lie in reverse order.
use n4ch0s.Base.{
  ℕ, ◌<◌, ◌≡◌, List, ◌∷◌, [], replicate, arith, refl, get_elem?, some, suc, zero, ◌/◌,
  length-replicate, ap, Option, none,
}
use n4ch0s.Base.Int.{pos, ℤ, negsuc}
use n4ch0s.FileSys.FileHeader.{FileHeader, sector_size, file_length}
use n4ch0s.FileSys.OpenFile.{read_at, write_at}
use n4ch0s.FileSys.OpenFile.Stored.{Apart, Stores}
use n4ch0s.FileSys.OpenFile.Writing.{write_at-Stores}
use n4ch0s.Base.{take}
use n4ch0s.FileSys.OpenFile.Reading.{Readable, Reads, read_at-Reads}
use n4ch0s.Disk.{num_sectors}

abbrev two_sectors : FileHeader
two_sectors = record { num_bytes = 600; num_sectors = 2; data_sectors = pos 7 ∷ pos 4 ∷ [] }

abbrev numbered : ℕ → List ℕ
numbered k = replicate sector_size k

named_twice :
    (q : ℕ)
    → q < 2
    → (k : ℕ) × (get_elem? two_sectors.data_sectors q ≡ some (pos k)) × (k < num_sectors)
named_twice zero h = (7, refl, omega arith)
named_twice (suc zero) h = (4, refl, omega arith)
named_twice (suc (suc q)) h = absurd (omega arith)

two_sectors-Readable : Readable two_sectors numbered
unfolding file_length
two_sectors-Readable = record {
  data_of = λ i h. named_twice (i / sector_size) (omega arith);
  full = λ k. length-replicate sector_size k;
}

read_at-Reads_example :
    Reads two_sectors numbered 500 100 (read_at two_sectors numbered (pos 300) 500)
unfolding file_length
read_at-Reads_example = read_at-Reads two_sectors numbered 300 500 two_sectors-Readable

sector_number : Option ℤ → ℕ
sector_number (some (pos k)) = k
sector_number (some (negsuc k)) = 0
sector_number none = 0

same_place :
    (p q k : ℕ)
    → p < 2
    → q < 2
    → get_elem? two_sectors.data_sectors p ≡ some (pos k)
    → get_elem? two_sectors.data_sectors q ≡ some (pos k)
    → p ≡ q
unfolding sector_number
same_place zero zero k h l e g = refl
same_place zero (suc zero) k h l e g =
    absurd (omega (arith, ap sector_number e, ap sector_number g))
same_place (suc zero) zero k h l e g =
    absurd (omega (arith, ap sector_number e, ap sector_number g))
same_place (suc zero) (suc zero) k h l e g = refl
same_place zero (suc (suc q)) k h l e g = absurd (omega arith)
same_place (suc zero) (suc (suc q)) k h l e g = absurd (omega arith)
same_place (suc (suc p)) q k h l e g = absurd (omega arith)

two_sectors-Apart : Apart two_sectors
unfolding file_length
two_sectors-Apart i j k p q e g =
    same_place (i / sector_size) (j / sector_size) k (omega arith) (omega arith) e g

write_at-Stores_example :
    (disk' : ℕ → List ℕ) × (write_at two_sectors numbered
        (λ n. replicate n 0)
        (replicate 300 9)
        (pos 300)
        500
      ≡ some (100, disk'))
    × Stores two_sectors numbered disk' 500 (take 100 (replicate 300 9))
unfolding file_length
write_at-Stores_example =
    write_at-Stores two_sectors numbered (λ n. replicate n 0) (replicate 300 9) 300 500
      two_sectors-Readable two_sectors-Apart (λ k. length-replicate k 0)
      (omega (arith, length-replicate {A = ℕ} 300 9))
