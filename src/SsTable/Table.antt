-- ===== src/SsTable/Table.antt =====
-- `SsTable` and `IndexEntry` of ferrumdb-core/src/sstable.rs: building the file of a table, opening
-- it, and reading from it. A read populates the block cache behind the `RefCell`, so the table is
-- part of the state.
pub mod Build
pub mod Parse
pub mod Read
pub mod Layout
pub mod Loop
pub mod Blocks
pub mod Cached
pub mod Range
pub mod Lookup
pub mod Flushed
pub mod Size
pub mod Footer
pub mod Extras
pub mod Opened
use ferrum_db.Base.{ℕ, Option, List, ◌≡◌}
use ferrum_db.Base.Bytes.{Bytes}
use ferrum_db.SsTable.Bloom.{BloomFilter}
use ferrum_db.SsTable.Cache.{BlockCache}

pub record IndexEntry : Type 0 where
  pub first_key : Bytes
  pub block_offset : ℕ
  pub block_len : ℕ

pub record SsTable : Type 0 where
  pub path : Bytes
  pub index : List IndexEntry
  pub min_key : Option Bytes
  pub max_key : Option Bytes
  pub bloom : Option BloomFilter
  pub cache : BlockCache
