-- ===== src/Lib.antt =====
-- FerrumDB, an embedded key-value store: a verification of its storage engine, the crate
-- ferrumdb-core, and of the crate ferrumdb, its public interface.
--
-- A table of FerrumDB lives in a directory: a write-ahead log, which takes each write and a COMMIT
-- per batch, and immutable sorted files (SSTables), to which the memtable is flushed. A lookup asks
-- the memtable, then the SSTables from the newest on; each of these skips keys outside its range
-- and keys that its Bloom filter rules out, finds a block by its sparse index, and reads that block
-- through a cache.
--
-- The files and what they model:
--   Base          numbers, lists and byte strings; Base/Words has the big-endian words.
--   BTreeMap      `std::collections::BTreeMap` over byte-string keys, as its sorted entries.
--   Errors        ferrumdb-core/src/errors.rs, and panics as a result of their own.
--   Proto         ferrumdb-core/src/proto/store.proto and wal.proto; the encoder and decoder that
--                 the build generates are the record `Codec`, a parameter with its round-trip laws.
--   Value         `Value`, `Entry`, `to_proto`, `from_proto`, `entry_footprint` (store.rs, sstable.rs).
--   Disk          `std::fs`: files by path and the failures that the environment chooses. Any call
--                 but the release of a lock may fail, a write after any number of its bytes. `Disk/Healthy` has what the calls
--                 do where none fails; `Disk/Directory` lists and removes directories.
--   Wal           ferrumdb-core/src/wal.rs, function by function under the source's names.
--   SsTable       ferrumdb-core/src/sstable.rs: `Reader` (the cursor readers and the CRC), `Record`
--                 (records of a block), `Bloom`, `Cache` (`BlockCache`), and `Table` with `Build`
--                 (`flush`), `Parse` and `Read` (`open`, `get`, `read_all_entries`).
--   Store         ferrumdb-core/src/store.rs: `Store` with `memtable_insert` and `get_value`, `Bounds`
--                 (`in_bounds`, `range_overlaps`), `Scan` (`scan_range`), `Files` (the names of the
--                 files), `Compact` (`compact`, `maybe_compact`), `Transaction` (the buffer and its
--                 reads), `Write` (`set_value`, `delete_value`, `commit`, `flush`), `Replay`
--                 (`replay_wal`), `Open` (`open_with_dir`, `load_sstables`, the lock), and `Valid` with
--                 the invariant `IsOpen` of a store, its tables, its log and its files between two
--                 calls: `Saved` says what the files of the tables hold, and `Listing` which names in
--                 the directory are tables. `Room` counts the bytes of the tables and the memtable.
--   Store/Session the calls of several processes on one directory as a step relation: `Step` and
--                 `Runs` go by the code's functions, `Trace` by what a map would do.
--   Api           ferrumdb/src/error.rs, and calls that end in its errors.
--   Table         ferrumdb/src/table.rs: `prefix_upper_bound`, and `Handle` with the operations.
--   Txn           ferrumdb/src/txn.rs.
--   Database      ferrumdb/src/database.rs: the names, the open stores and their directories.
--   Tests         runs on concrete inputs, with a concrete codec.
--
-- State is passed explicitly: an operation of the log is a function from a log and a disk to a
-- result and both again, and what it did before an error stays done. A cursor into a buffer is the
-- bytes that are left. Numbers are natural numbers and the width of a machine word is written out
-- where the source can reach it; an i32 and an f64 are their bit patterns. A loop over a buffer runs
-- on fuel, the buffer's length; each round takes a byte at least, and the theorems on these loops
-- state the result and not only its correctness. A `HashMap` is an association list.
--
-- A theorem on a write asks for an open store (`IsOpen`), for numbers below 2^64 and for tables whose
-- files stay below 2^32 bytes (`CanCommit`, `Fits`); the program checks none of these bounds. A file
-- of a table takes at most 53 bytes and the `weight` of its entries, so a session is within the bound
-- as long as all that it holds and writes weighs less than 2^32 - 53 bytes. The order in which a file
-- system lists a directory is an argument, a permutation of the names. The end of a process in the
-- middle of a write to the log leaves any prefix of the bytes it was to append; what it wrote before
-- is kept, and its lock is free.
--
-- A sum that leaves a u64 and a slice behind the end of a buffer panic, and a panic is a result that
-- no caller goes on from. `SsTable/Cache/History` says which offsets of a table were used last, from
-- the calls alone, and `Cache/Recent` that the cache holds these.
--
-- Not modelled: the text of error messages and of results, allocation failures, the accessors that
-- return a path or lend out the memtable, and a path that is not UTF-8. A path names a file or a
-- directory and not both, so `create_dir_all` finds no file in its way. `exists` and `is_dir` of the
-- crate ferrumdb see what is there, where a failed call would make them answer `false`. A handle that
-- was opened is found again by its path, since no other process touches the files of a locked table,
-- and nobody but `delete_table` removes a table's directory. The crate roots only list modules, and
-- the demo prints what other parts return.
pub mod Base
pub mod BTreeMap
pub mod Errors
pub mod Proto
pub mod Value
pub mod Disk
pub mod Wal
pub mod SsTable
pub mod Store
pub mod Table
pub mod Api
pub mod Txn
pub mod Database
pub mod Tests
