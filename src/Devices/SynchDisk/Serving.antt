-- ===== src/Devices/SynchDisk/Serving.antt =====
-- A thread that reads a sector by nachos-3.4/code/filesys/synchdisk.cc, and a second one meanwhile.
use n4ch0s.Base.{ℕ, true, false, none, some, List, [], ◌∷◌, ◌<◌, ◌≡◌, refl}
use n4ch0s.Base.Int.{pos, ◌+ℤ◌, ◌-ℤ◌}
use n4ch0s.Interrupt.{Interrupt}
use n4ch0s.SortedList.{element, append, sorted_remove}
use n4ch0s.Disk
use n4ch0s.Disk.{Disk, num_sectors}
use n4ch0s.Disk.Latency.{read_request-Requested}
use n4ch0s.Semaphore
use n4ch0s.Semaphore.{Semaphore}
use n4ch0s.Processes.{closed}
use n4ch0s.Devices.SynchDisk.{SynchDisk, read_sector, write_sector, wait, request_done}

-- The disk and the interrupts after the request; the thread has slept, and runs on after the interrupt.
pub record Served (d : SynchDisk) (s : Interrupt) (sector thread : ℕ) : Type 0 where
  pub started : SynchDisk
  pub s' : Interrupt
  pub sleeping : SynchDisk
  pub woken : SynchDisk
  pub finished : SynchDisk
  pub starts : read_sector d s sector ≡ some (d.disk.sectors sector, started, s')
  pub sleeps : wait started thread ≡ (false, sleeping)
  pub refuses :
      (other : ℕ) (bytes : List ℕ)
      → (read_sector sleeping s' other ≡ none) × (write_sector sleeping s' other bytes ≡ none)
  pub wakes : request_done sleeping [] ≡ (woken, element thread 0 ∷ [])
  pub goes_on : wait woken thread ≡ (true, finished)
  pub idle : finished.disk.active ≡ false
  pub closed_again : finished.semaphore ≡ closed
  pub kept : finished.disk.sectors ≡ d.disk.sectors

read_sector-started :
    (d : SynchDisk) (s : Interrupt) (sector : ℕ) {bytes : List ℕ} {disk : Disk} {s' : Interrupt}
    → Disk.read_request d.disk s sector ≡ some (bytes, disk, s')
    → read_sector d s sector ≡ some (bytes, record d { disk = disk }, s')
unfolding read_sector
read_sector-started _ _ _ e = rw e refl

-- On an idle disk with nobody waiting: a read of a sector gives its bytes and puts the thread to sleep until the
-- interrupt of the disk, which makes just this thread ready; it goes on, and the disk is idle with the same
-- contents. Since the lock excludes nobody, a request of another thread in between stops at the ASSERT of
-- the disk.
pub read_sector-Served :
    (d : SynchDisk) (s : Interrupt) (sector thread : ℕ)
    → d.disk.active ≡ false
    → d.semaphore ≡ closed
    → sector < num_sectors
    → Served d s sector thread
unfolding read_sector write_sector wait request_done Semaphore.p Semaphore.v append sorted_remove
    Disk.handle_interrupt Disk.read_request Disk.write_request ◌+ℤ◌ ◌-ℤ◌
read_sector-Served d s sector thread idle shut inside =
    let (d', s', e, r) = read_request-Requested d.disk s sector idle inside in
    record {
      started = record d { disk = d' };
      s' = s';
      sleeping = record {
        semaphore = record { value = pos 0; queue = element thread 0 ∷ [] };
        disk = d';
      };
      woken = record {
        semaphore = record { value = pos 1; queue = [] };
        disk = record d' { active = false };
      };
      finished = record { semaphore = closed; disk = record d' { active = false } };
      starts = read_sector-started d s sector e;
      sleeps = rw shut refl;
      refuses = λ other bytes. (rw r.is_active refl, rw r.is_active refl);
      wakes = refl;
      goes_on = refl;
      idle = refl;
      closed_again = refl;
      kept = r.kept;
    }
