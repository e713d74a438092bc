-- ===== src/LogSystem.antt =====
-- logSystem/logsCode: the asynchronous logger.
pub mod Util
pub mod Config
pub mod Buffer
pub mod Worker
pub mod ThreadPool
pub mod Flush
pub mod Message
pub mod Logger
pub mod Manager
pub mod MyLog
pub mod Backlog
pub mod Start
pub mod Example
pub mod Sample
mod Tests
