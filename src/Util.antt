-- ===== src/Util.antt =====
-- The helpers under src/util, and the number conversions of the standard library.
pub mod Decimal
pub mod Split
pub mod Npt
pub mod RingBuffer
mod Tests
