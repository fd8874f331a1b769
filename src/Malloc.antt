-- ===== src/Malloc.antt =====
-- malloclab: the simulated memory of memlib.c, the allocator mm.c, the driver's check of the blocks an
-- allocator returns (mdriver.c), and the measurement of times (fcyc.c).
pub mod Memlib
pub mod Ranges
pub mod Word
pub mod Mm
pub mod Driver
pub mod Fcyc
mod Tests
