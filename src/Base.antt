-- ===== src/Base.antt =====
-- base/: dates as Julian day numbers, time zones, a blocking queue and a latch.
pub mod Atomic
pub mod BlockingQueue
pub mod CountDownLatch
pub mod Date
pub mod FileUtil
pub mod ProcessInfo
pub mod TimeZone
mod Tests
