-- ===== src/Tests.antt =====
-- Runs at concrete data, and the theorems applied to it.
mod Samples
mod Session
mod Rpc
mod Daemon
mod Search
mod Context
mod Memory
mod Bookmarks
mod Tags
mod Pool
mod Instances
mod Threads
mod VersionTracking
mod DataTypes
mod Cli
