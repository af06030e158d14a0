-- ===== src/Wal.antt =====
-- ferrumdb-core/src/wal.rs: the write-ahead log. `parse_buffer`'s offset into the buffer is kept
-- beside the bytes from that offset on; the usize addition `offset + len` panics where it
-- overflows (in a release build the wrapped sum makes the slice that follows panic).
pub mod Frames
pub mod Parse
pub mod Committed
pub mod Recovery
pub mod Partial
pub mod Append
use ferrum_db.Base.{
  ℕ, zero, suc, ◌+◌, ◌^◌, ◌≡◌, Bool, true, false, Option, none, some, List, [], ◌∷◌, ◌++◌, length,
  take, drop, ltb, leb, if◌then◌else◌, ◌==◌,
}
use ferrum_db.Base.Bytes.{Bytes}
use ferrum_db.Base.Words.{u64_bytes, from_be, u64_mod}
use ferrum_db.Errors.{Result, ok, panic}
use ferrum_db.Errors
use ferrum_db.Proto.{WalEntry, Operation, put, delete, commit, Codec}
use ferrum_db.Value.{Value, to_proto}
use ferrum_db.Disk.{
  Disk, Exec, ◌>>=◌, ◌>>◌, pure, lift, stat, create_dir_all, open_create, create_truncate,
  open_existing, write_all, sync_all, read_to_end, set_len, on_disk,
}

-- `file` tells whether the append handle is cached.
pub record Wal : Type 0 where
  pub file_path : Bytes
  pub file : Bool

unfoldable pub before_last_slash : Bytes → Option Bytes
before_last_slash [] = none
before_last_slash (c ∷ cs) = elim (before_last_slash cs) [
  | some p ↦ some (c ∷ p)
  | none ↦ if c == b'/' then some [] else none
]

-- `Path::parent` of a path that ends in a file name.
unfoldable pub parent : Bytes → Bytes
unfolding before_last_slash
parent path = elim (before_last_slash path) [ none ↦ [] | some p ↦ p ]

-- `Wal::with_path`; the result of `create_dir_all` is dropped by `.ok()`.
unfoldable pub with_path : Bytes → Disk → Wal × Disk
unfolding parent
with_path path d = (record { file_path = path; file = false }, (create_dir_all (parent path) d).1)

open_writer : Bool → Exec (Wal × Disk) (Unit {0})
open_writer true s = (ok tt, s)
open_writer false s =
    (do on_disk (open_create s.0.file_path); λ t. (ok tt, (record t.0 { file = true }, t.1))) s

-- `Wal::writer`
unfoldable pub writer : Exec (Wal × Disk) (Unit {0})
unfolding open_writer
writer s = open_writer s.0.file s

abbrev pub commit_entry : ℕ → WalEntry
commit_entry sequence = record {
  operation = commit;
  key = [];
  value = none;
  sequence = sequence;
  timestamp = 0;
}

module _ ⦃c : Codec⦄ where
  -- `frame`
  unfoldable pub frame : WalEntry → Bytes
  frame entry = let bytes = c.encode_entry entry in u64_bytes (length bytes) ++ bytes

  -- `Wal::append`
  unfoldable pub append : WalEntry → Exec (Wal × Disk) (Unit {0})
  unfolding writer frame
  append entry s = (do writer; on_disk (write_all s.0.file_path (frame entry))) s

  -- `Wal::write_commit`
  unfoldable pub write_commit : ℕ → Exec (Wal × Disk) (Unit {0})
  unfolding writer frame
  write_commit sequence s =
      (do
        writer
        on_disk (write_all s.0.file_path (frame (commit_entry sequence)))
        on_disk (sync_all s.0.file_path))
        s

-- `Wal::create_put_entry`
unfoldable pub create_put_entry : Bytes → Value → ℕ → WalEntry
create_put_entry key value sequence = record {
  operation = put;
  key = key;
  value = some (to_proto value);
  sequence = sequence;
  timestamp = 0;
}

-- `Wal::create_delete_entry`
unfoldable pub create_delete_entry : Bytes → ℕ → WalEntry
create_delete_entry key sequence = record {
  operation = delete;
  key = key;
  value = none;
  sequence = sequence;
  timestamp = 0;
}

-- The triple that `parse_buffer` returns.
pub record Parsed : Type 0 where
  pub entries : List WalEntry
  pub committed_count : ℕ
  pub committed_end : ℕ

abbrev pub nothing_parsed : Parsed
nothing_parsed = record { entries = []; committed_count = 0; committed_end = 0 }

note : Operation → ℕ → Parsed → Parsed
note commit end p = record p { committed_count = length p.entries; committed_end = end }
note put end p = p
note delete end p = p

-- What one record adds, decoded or not; `end` is the offset just past it.
unfoldable pub accept : Option WalEntry → ℕ → Parsed → Parsed
unfolding note
accept none end p = p
accept (some e) end p = note e.operation end (record p { entries = p.entries ++ (e ∷ []) })

module _ ⦃c : Codec⦄ where
  -- The `while` loop of `parse_buffer`: `rest` is the buffer from `offset` on. A round takes eight
  -- bytes at least; the fuel is the buffer's length.
  unfoldable pub parse_loop : ℕ → Bytes → ℕ → Parsed → Result Parsed
  parse_loop zero [] offset p = ok p
  parse_loop zero (b ∷ bs) offset p = panic
  parse_loop (suc fuel) [] offset p = ok p
  parse_loop (suc fuel) (b ∷ bs) offset p =
      let rest = b ∷ bs in
      let len = from_be 0 (take 8 rest) in
      let body = drop 8 rest in
      let end = offset + 8 + len in
      let next =
        parse_loop fuel (drop len body) end (accept (c.decode_entry (take len body)) end p) in
      if ltb (length rest) 8
      then ok p
      else if leb u64_mod end
      then panic
      else if ltb (length body) len
      then ok p
      else next

  -- `parse_buffer`
  unfoldable pub parse_buffer : Bytes → Result Parsed
  parse_buffer buffer = parse_loop (length buffer) buffer 0 nothing_parsed

  -- `Wal::read_file`
  unfoldable pub read_file : Exec (Wal × Disk) (Option Bytes)
  read_file s =
      (do
        found ← on_disk (stat s.0.file_path)
        elim found [
          | false ↦ pure none
          | true ↦ do
            on_disk (open_existing s.0.file_path)
            buffer ← on_disk (read_to_end s.0.file_path)
            pure (some buffer)
        ])
        s

  -- `Wal::read_all`
  unfoldable pub read_all : Exec (Wal × Disk) (List WalEntry)
  read_all = do
    found ← read_file
    elim found [
      | none ↦ pure []
      | some buffer ↦ do parsed ← lift (parse_buffer buffer); pure parsed.entries
    ]

  -- The uncommitted tail is cut off, and the cached handle forgotten.
  unfoldable pub cut_tail : ℕ → ℕ → Exec (Wal × Disk) (Unit {0})
  cut_tail committed_end size s =
      if ltb committed_end size
      then (do
        on_disk (open_existing s.0.file_path)
        on_disk (set_len s.0.file_path committed_end)
        on_disk (sync_all s.0.file_path)
        λ t. (ok tt, (record t.0 { file = false }, t.1)))
          s
      else (ok tt, s)

  unfoldable pub recover_buffer : Bytes → Exec (Wal × Disk) (List WalEntry)
  recover_buffer buffer = do
    parsed ← lift (parse_buffer buffer)
    cut_tail parsed.committed_end (length buffer)
    pure (take parsed.committed_count parsed.entries)

  -- `Wal::read_for_recovery`
  unfoldable pub read_for_recovery : Exec (Wal × Disk) (List WalEntry)
  read_for_recovery = do
    found ← read_file
    elim found [ none ↦ pure [] | some buffer ↦ recover_buffer buffer ]

-- `Wal::clear`
unfoldable pub clear : Exec (Wal × Disk) (Unit {0})
clear s =
    (do on_disk (create_truncate s.0.file_path); on_disk (sync_all s.0.file_path))
      (record s.0 { file = false }, s.1)
