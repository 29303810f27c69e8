-- ===== src/Log.antt =====
-- The logging library: log/.
pub mod AsyncLogger
pub mod AsyncLogging
pub mod Logging
pub mod LogMessage
pub mod LogStream
pub mod Rolling
mod Tests
