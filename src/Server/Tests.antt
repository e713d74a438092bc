-- ===== src/Server/Tests.antt =====
-- Runs of the storage service, and its theorems at concrete inputs.
mod Sample
mod Transfers
mod Manager
mod Calls
mod Pages
mod Instances
mod Runs
mod Orders
mod Programs
