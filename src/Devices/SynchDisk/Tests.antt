-- ===== src/Devices/SynchDisk/Tests.antt =====
-- A read of a sector of an idle disk.
use n4ch0s.Base.{false, [], ◌∷◌, refl, arith}
use n4ch0s.Interrupt
use n4ch0s.Processes.{closed}
use n4ch0s.Devices.SynchDisk.{SynchDisk}
use n4ch0s.Devices.SynchDisk.Serving.{Served, read_sector-Served}

abbrev idle : SynchDisk
idle = record {
  semaphore = closed;
  disk = record {
    sectors = λ i. i ∷ [];
    handler = 2;
    handler_arg = 0;
    active = false;
    last_sector = 40;
    buffer_init = 0;
    num_disk_reads = 0;
    num_disk_writes = 0;
  };
}

read_sector-Served_example : Served idle Interrupt.init 9 5
read_sector-Served_example = read_sector-Served idle Interrupt.init 9 5 refl refl (omega arith)
