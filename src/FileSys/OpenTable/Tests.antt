-- ===== src/FileSys/OpenTable/Tests.antt =====
-- The place that a table with its first places taken gives to a file.
use n4ch0s.Base.{ℕ, ◌≡◌, refl, none, some, Option, ltb, if◌then◌else◌, replicate}
use n4ch0s.Base.Int.{pos, negsuc}
use n4ch0s.FileSys.OpenTable.{TypedFile, find_free_slot, free_slot_loop}

abbrev some_file : TypedFile
some_file = record {
  file = record {
    hdr = record { num_bytes = 0; num_sectors = 0; data_sectors = replicate 126 (pos 0) };
    seek_position = 0;
  };
  file_type = 0;
}

abbrev taken : (places : ℕ) → ℕ → Option TypedFile
taken places i = if ltb i places then some some_file else none

third_place : find_free_slot (taken 0) ≡ pos 2
unfolding free_slot_loop
third_place = refl

after_six : find_free_slot (taken 6) ≡ pos 6
unfolding free_slot_loop
after_six = refl

no_place : find_free_slot (taken 15) ≡ negsuc 0
unfolding free_slot_loop
no_place = refl
