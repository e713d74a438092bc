-- ===== src/Server.antt =====
-- src/server: the storage service over HTTP.
pub mod Disk
pub mod Config
pub mod DataManager
pub mod Url
pub mod Service
pub mod Listing
pub mod Handler
pub mod Store
pub mod Runs
pub mod Program
mod Tests
