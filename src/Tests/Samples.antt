-- ===== src/Tests/Samples.antt =====
-- The data that the tests run on.
use ferrum_db.Base.{ℕ, false, some, List, [], ◌∷◌}
use ferrum_db.Base.Bytes.{Bytes}
use ferrum_db.Proto.{WalEntry, Kind, put}
use ferrum_db.Value.{Entry, value, tombstone, integer}
use ferrum_db.Disk.{Disk}
use ferrum_db.Wal.{Wal, commit_entry}

abbrev pub wal_path : Bytes
wal_path = b'w' ∷ []

abbrev pub wal : Wal
wal = record { file_path = wal_path; file = false }

abbrev pub put_entry : Bytes → ℕ → WalEntry
put_entry key n = record {
  operation = put;
  key = key;
  value = some (record { kind = some (Kind.integer n) });
  sequence = n;
  timestamp = 0;
}

-- A put with its COMMIT, and a put without one.
abbrev pub log : List WalEntry
log = put_entry (b'a' ∷ []) 1 ∷ commit_entry 1 ∷ put_entry (b'b' ∷ []) 2 ∷ []

-- A working disk that holds one file.
abbrev pub disk_with : Bytes → Bytes → Disk
disk_with path file = record { files = (path, file) ∷ []; dirs = []; locks = []; faults = [] }

abbrev pub empty_disk : Disk
empty_disk = record { files = []; dirs = []; locks = []; faults = [] }

-- A value and a deletion.
abbrev pub entries : List (Bytes × Entry)
entries = (b'a' ∷ [], value (integer 7)) ∷ (b'b' ∷ [], tombstone) ∷ []

abbrev pub table_path : Bytes
table_path = b't' ∷ []

abbrev pub table_dir : Bytes
table_dir = b'd' ∷ []
