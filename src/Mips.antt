-- ===== src/Mips.antt =====
-- The processor of nachos-3.4/code/machine/mipssim.cc and mipssim.h.
pub mod Word
pub mod Decode
pub mod Mult
pub mod Execute
pub mod Run
mod Tests
