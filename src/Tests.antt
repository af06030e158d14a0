-- ===== src/Tests.antt =====
-- Runs of the program's definitions on concrete inputs.
pub mod Codec
pub mod Samples
pub mod Checksums
pub mod Wal
pub mod Cache
pub mod SsTable
pub mod Store
pub mod Live
pub mod Writes
pub mod Open
pub mod Scans
pub mod Sessions
pub mod Databases
