-- ===== src/Devices.antt =====
-- The devices of nachos-3.4/code/machine that poll the host, and the synchronous disk of nachos-3.4/code/filesys.
pub mod Network
pub mod Console
pub mod Timer
pub mod SynchDisk
