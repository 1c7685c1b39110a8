-- ===== src/Disk.antt =====
-- The simulated disk of nachos-3.4/code/machine/disk.cc.
pub mod Latency
use n4ch0s.Base.{
  ℕ, ◌+◌, ◌-◌, ◌*◌, ◌/◌, ◌%◌, ◌&&◌, ◌==◌, ◌>>=◌, ◌>>◌, if◌then◌else◌, Bool, true, false, not,
  Option, some, List, ltb, assert, none,
}
use n4ch0s.Interrupt.{Interrupt, schedule, disk_int}

abbrev pub sectors_per_track : ℕ
sectors_per_track = 32

-- `SectorsPerTrack * NumTracks`.
abbrev pub num_sectors : ℕ
num_sectors = 1024

-- `RotationTime` and `SeekTime` of stats.h.
abbrev pub rotation_time : ℕ
rotation_time = 500

abbrev pub seek_time : ℕ
seek_time = 500

-- The file behind the disk is the list of bytes of each sector; `handler` is the number of
-- `DiskDone`, which is called with the number of the disk. The last two fields
-- are the disk's counters in stats.h.
pub record Disk : Type 0 where
  pub sectors : ℕ → List ℕ
  pub handler : ℕ
  pub handler_arg : ℕ
  pub active : Bool
  pub last_sector : ℕ
  pub buffer_init : ℕ
  pub num_disk_reads : ℕ
  pub num_disk_writes : ℕ

abbrev pub distance : ℕ → ℕ → ℕ
distance a b = (a - b) + (b - a)

-- `TimeToSeek`: the seek, and the rotation to the next boundary of a sector.
unfoldable pub time_to_seek : Disk → (total_ticks new_sector : ℕ) → ℕ × ℕ
time_to_seek d total_ticks new_sector =
    let new_track = new_sector / sectors_per_track in
    let old_track = d.last_sector / sectors_per_track in
    let seek = distance new_track old_track * seek_time in
    let over = (total_ticks + seek) % rotation_time in
    (seek, if ltb 0 over then rotation_time - over else 0)

unfoldable pub modulo_diff : (to from : ℕ) → ℕ
modulo_diff to from =
    (to % sectors_per_track + sectors_per_track - from % sectors_per_track) % sectors_per_track

-- The track buffer holds the sector. Where `timeAfter` lies before `bufferInit` the source has a
-- quotient of at most 0, which is not larger than the difference either.
abbrev pub in_track_buffer : Disk → (new_sector time_after : ℕ) → Bool
in_track_buffer d new_sector time_after =
    ltb (modulo_diff new_sector (d.buffer_init / rotation_time))
      ((time_after - d.buffer_init) / rotation_time)

unfoldable pub compute_latency : Disk → (total_ticks new_sector : ℕ) → Bool → ℕ
compute_latency d total_ticks new_sector writing =
    let (seek, rotation) = time_to_seek d total_ticks new_sector in
    let time_after = total_ticks + seek + rotation in
    if not writing && (seek == 0) && in_track_buffer d new_sector time_after
    then rotation_time
    else seek
      + (rotation + modulo_diff new_sector (time_after / rotation_time) * rotation_time)
      + rotation_time

unfoldable pub update_last : Disk → (total_ticks new_sector : ℕ) → Disk
update_last d total_ticks new_sector =
    let (seek, rotate) = time_to_seek d total_ticks new_sector in
    let moved = record d { buffer_init = total_ticks + seek + rotate } in
    record (if seek == 0 then d else moved) { last_sector = new_sector }

-- The part that both requests share, after the data has been moved: `read_request` and
-- `write_request` call it on the disk with their data.
unfoldable pub request : Disk → Interrupt → (ticks sector_number : ℕ) → Option (Disk × Interrupt)
request d s ticks sector_number =
    let d' = update_last (record d { active = true }) s.total_ticks sector_number in
    schedule s d.handler d.handler_arg ticks disk_int >>= λ s'. some (d', s')

abbrev pub with_bytes : List ℕ → Option (Disk × Interrupt) → Option (List ℕ × Disk × Interrupt)
with_bytes bytes none = none
with_bytes bytes (some (d, s)) = some (bytes, d, s)

-- The data read, with the disk and the interrupts afterwards; `none` where an ASSERT fails.
unfoldable pub read_request :
    Disk → Interrupt → (sector_number : ℕ) → Option (List ℕ × Disk × Interrupt)
read_request d s sector_number =
    let ticks = compute_latency d s.total_ticks sector_number false in
    assert (not d.active)
    >> assert (ltb sector_number num_sectors)
    >> with_bytes (d.sectors sector_number)
        (request (record d { num_disk_reads = d.num_disk_reads + 1 }) s ticks sector_number)

unfoldable pub write_request :
    Disk → Interrupt → (sector_number : ℕ) → List ℕ → Option (Disk × Interrupt)
write_request d s sector_number bytes =
    let ticks = compute_latency d s.total_ticks sector_number true in
    let written = λ (i : ℕ). if i == sector_number then bytes else d.sectors i in
    assert (not d.active)
    >> assert (ltb sector_number num_sectors)
    >> request (record d { sectors = written; num_disk_writes = d.num_disk_writes + 1 }) s ticks
        sector_number

-- `HandleInterrupt` up to the call of the handler.
unfoldable pub handle_interrupt : Disk → Disk
handle_interrupt d = record d { active = false }
