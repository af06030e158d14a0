-- ===== src/SsTable.antt =====
-- ferrumdb-core/src/sstable.rs: the sorted, immutable file that a memtable is flushed to.
pub mod Reader
pub mod Bloom
pub mod Cache
pub mod Record
pub mod Table
