-- ===== src/Devices/SynchDisk.antt =====
-- The synchronous disk of nachos-3.4/code/filesys/synchdisk.cc over the disk, the interrupts and the semaphore. Its
-- lock is empty, as in nachos-3.4/code/threads/synch.cc.
pub mod Serving
mod Tests
use n4ch0s.Base.{ℕ, ◌>>=◌, Bool, true, false, Option, some, List}
use n4ch0s.Base.Int.{ℤ, pos}
use n4ch0s.Interrupt.{Interrupt}
use n4ch0s.SortedList.{Element}
use n4ch0s.Disk
use n4ch0s.Disk.{Disk}
use n4ch0s.Semaphore
use n4ch0s.Semaphore.{Semaphore, sleeps, goes_on}

pub record SynchDisk : Type 0 where
  pub semaphore : Semaphore
  pub disk : Disk

-- `ReadSector` and `WriteSector` up to the call of `P`.
unfoldable pub read_sector :
    SynchDisk → Interrupt → (sector : ℕ) → Option (List ℕ × SynchDisk × Interrupt)
read_sector d s sector = Disk.read_request d.disk s sector >>= λ (bytes, disk, s').
    some (bytes, record d { disk = disk }, s')

unfoldable pub write_sector :
    SynchDisk → Interrupt → (sector : ℕ) → List ℕ → Option (SynchDisk × Interrupt)
write_sector d s sector bytes =
    Disk.write_request d.disk s sector bytes >>= λ (disk, s'). some (record d { disk = disk }, s')

-- A round of `semaphore->P()` by a thread: whether it goes on.
unfoldable pub wait : SynchDisk → (thread : ℕ) → Bool × SynchDisk
wait d thread = elim (Semaphore.p d.semaphore thread) [
  | sleeps x ↦ (false, record d { semaphore = x })
  | goes_on x ↦ (true, record d { semaphore = x })
]

-- The interrupt of the disk: `HandleInterrupt`, whose handler calls `RequestDone`; with the ready list.
unfoldable pub request_done : SynchDisk → List (Element ℕ) → SynchDisk × List (Element ℕ)
request_done d ready =
    let r = Semaphore.v d.semaphore ready in
    (record d { semaphore = r.0; disk = Disk.handle_interrupt d.disk }, r.1)
