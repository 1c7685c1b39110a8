-- ===== src/Disk/Latency.antt =====
-- The latency of nachos-3.4/code/machine/disk.cc against where the head is.
use n4ch0s.Base.{
  ℕ, ◌+◌, ◌*◌, ◌/◌, ◌%◌, ◌<◌, ◌≡◌, ◌∙◌, ◌&&◌, ◌==◌, refl, ap, Bool, true, not, some, inl, inr,
  arith, false, Bool-cases, lt→ltb, asserts-pass,
}
use n4ch0s.Disk.{
  rotation_time, time_to_seek, Disk, compute_latency, update_last, request, read_request,
  sectors_per_track, in_track_buffer, num_sectors, with_bytes,
}
use n4ch0s.Interrupt.{Interrupt, schedule, disk_int}
use n4ch0s.SortedList.{sorted_insert}
use n4ch0s.Interrupt.{pending_interrupt}

-- The sector of the track that passes under the head from the time `t` on, where `t` is a boundary.
abbrev pub under_head : ℕ → ℕ
under_head t = t / rotation_time % sectors_per_track

-- A transfer that the track buffer does not serve takes the seek, the rotation to a boundary, less
-- than a turn of the track, and one sector: it begins at a boundary with the sector under the head.
pub record Positioned (d : Disk) (t sector latency : ℕ) : Type 0 where
  pub start : ℕ
  pub ends : t + latency ≡ start + rotation_time
  pub boundary : start % rotation_time ≡ 0
  pub position : under_head start ≡ sector % sectors_per_track
  pub prompt :
      start < t + (time_to_seek d t sector).0 + rotation_time + sectors_per_track * rotation_time

compute_latency-pos : (d : Disk) (t sector : ℕ) (w : Bool) → 0 < compute_latency d t sector w
unfolding compute_latency
compute_latency-pos d t sector w =
    elim (Bool-cases (
      not w
      && ((time_to_seek d t sector).0 == 0)
      && in_track_buffer d sector
          (t + (time_to_seek d t sector).0 + (time_to_seek d t sector).1))) [
            | inl e ↦ rw e (omega arith)
            | inr e ↦ rw e (omega arith)
          ]

keeps_active : (d : Disk) (t n : ℕ) → (update_last d t n).active ≡ d.active
unfolding update_last
keeps_active d t n = elim (Bool-cases ((time_to_seek d t n).0 == 0)) [
  | inl e ↦ rw e refl
  | inr e ↦ rw e refl
]

keeps_sectors : (d : Disk) (t n : ℕ) → (update_last d t n).sectors ≡ d.sectors
unfolding update_last
keeps_sectors d t n = elim (Bool-cases ((time_to_seek d t n).0 == 0)) [
  | inl e ↦ rw e refl
  | inr e ↦ rw e refl
]

-- What a request on an idle disk leaves.
pub record Requested (d d' : Disk) (s s' : Interrupt) (sector latency : ℕ) : Type 0 where
  pub is_active : d'.active ≡ true
  pub last : d'.last_sector ≡ sector
  pub kept : d'.sectors ≡ d.sectors
  pub queued :
      s'.pending
      ≡ sorted_insert s.pending
          (pending_interrupt d.handler d.handler_arg (s.total_ticks + latency) disk_int)
          (s.total_ticks + latency)

request-Requested :
    (d : Disk) (s : Interrupt) (sector ticks : ℕ)
    → 0 < ticks
    → (d' : Disk) × (s' : Interrupt) × (request d s ticks sector ≡ some (d', s'))
      × Requested d d' s s' sector ticks
unfolding request schedule update_last
request-Requested d s sector ticks h = rw (lt→ltb 0 ticks h) (
  update_last (record d { active = true }) s.total_ticks sector,
  record s {
    pending =
        sorted_insert s.pending
          (pending_interrupt d.handler d.handler_arg (s.total_ticks + ticks) disk_int)
          (s.total_ticks + ticks);
  },
  refl,
  record {
    is_active = keeps_active (record d { active = true }) s.total_ticks sector;
    last = refl;
    kept = keeps_sectors (record d { active = true }) s.total_ticks sector;
    queued = refl;
  },
)

-- A read of a sector of the disk while no request is active returns the sector's bytes, keeps the disk's contents and schedules the
-- interrupt that ends it: no ASSERT fails, the one of `Schedule` included.
pub read_request-Requested :
    (d : Disk) (s : Interrupt) (sector : ℕ)
    → d.active ≡ false
    → sector < num_sectors
    → (d' : Disk) × (s' : Interrupt) × (read_request d s sector ≡ some (d.sectors sector, d', s'))
      × Requested d d' s s' sector (compute_latency d s.total_ticks sector false)
unfolding read_request
read_request-Requested d s sector idle inside =
    let (d', s', e, r) =
      request-Requested (record d { num_disk_reads = d.num_disk_reads + 1 }) s sector
        (compute_latency d s.total_ticks sector false)
        (compute_latency-pos d s.total_ticks sector false) in
    (
      d',
      s',
      asserts-pass _ _ _ (ap not idle) (lt→ltb sector num_sectors inside)
          ∙ ap (with_bytes (d.sectors sector)) e,
      record { is_active = r.is_active; last = r.last; kept = r.kept; queued = r.queued },
    )
