-- ===== src/Store/Valid.antt =====
-- The state of an open store between two calls, of ferrumdb-core/src/store.rs.
use ferrum_db.Base.{ℕ, ◌<◌, ◌≡◌, ◌≢◌, refl, ap, ◌∙◌, Option, none, some, List, [], ◌∷◌, All}
use ferrum_db.Base.Bytes.{Bytes}
use ferrum_db.BTreeMap
use ferrum_db.BTreeMap.Lookup.{or_else}
use ferrum_db.Proto.{WalEntry, Codec, IsWalEntry}
use ferrum_db.Value.{Value, Entry}
use ferrum_db.Disk.{Disk}
use ferrum_db.Wal.Append.{IsLog}
use ferrum_db.SsTable.Record.{IsRecord}
use ferrum_db.SsTable.Table.{SsTable}
use ferrum_db.SsTable.Table.Layout.{Group}
use ferrum_db.SsTable.Table.Lookup.{Holds}
use ferrum_db.Store.{Store}
use ferrum_db.Store.Files.{sstable_path, wal_path}
use ferrum_db.Store.Memtable.{IsCounted}
use ferrum_db.Store.Saved.{IsSaved}
use ferrum_db.Store.Lookup.{newest, seen, AllHold}
use ferrum_db.Store.Replay.Batches.{IsClosed, Replays}

-- What a reader of the store sees under a key.
abbrev pub view : Store → List (List Group) → Bytes → Option Value
view s gss q = seen (or_else (BTreeMap.get q s.memtable) (newest q gss))

-- A table's file is named by an id that was given out.
abbrev pub IsNamed : Bytes → ℕ → SsTable → Type 0
IsNamed dir next t = (id : ℕ) × (t.path ≡ sstable_path dir id) × (id < next)

-- The tables hold the entries `gss`, the log's file holds the entries `log`, and these are what an
-- empty memtable needs to become the store's.
pub record IsOpen ⦃c : Codec⦄ (s : Store) (d : Disk) (gss : List (List Group)) (log : List WalEntry)
    : Type 0 where
  pub works : d.faults ≡ []
  pub counted : IsCounted s
  pub valid : All IsRecord s.memtable
  pub holds : AllHold s.sstables d gss
  pub saved : IsSaved s.dir s.next_sstable_id s.sstables gss d
  pub named : All (IsNamed s.dir s.next_sstable_id) s.sstables
  pub wal_named : s.wal.file_path ≡ wal_path s.dir
  pub is_log : IsLog s.wal d log
  pub log_valid : All (IsWalEntry c.is_utf8) log
  pub closed : IsClosed log []
  pub replays : Replays log s.memtable

module _ ⦃c : Codec⦄ where
  -- A table whose file is as it was holds what it held.
  Holds-same :
      (t : SsTable) (d after : Disk) (gs : List Group)
      → BTreeMap.get t.path after.files ≡ BTreeMap.get t.path d.files
      → Holds t d gs
      → Holds t after gs
  Holds-same t d after gs same h = record {
    tail = h.tail;
    nonempty = h.nonempty;
    sorted = h.sorted;
    valid = h.valid;
    stored = same ∙ h.stored;
    fits = h.fits;
    index = h.index;
    least = h.least;
    greatest = h.greatest;
    filter = h.filter;
    coherent = h.coherent;
  }

  pub AllHold-others :
      (path : Bytes) (ts : List SsTable) (d after : Disk) (gss : List (List Group))
      → ((q : Bytes) → q ≢ path → BTreeMap.get q after.files ≡ BTreeMap.get q d.files)
      → All (λ t. t.path ≢ path) ts
      → AllHold ts d gss
      → AllHold ts after gss
  AllHold-others path [] d after [] k apart h = tt
  AllHold-others path [] d after (gs ∷ gss) k apart h = absurd h
  AllHold-others path (t ∷ ts) d after [] k apart h = absurd h
  AllHold-others path (t ∷ ts) d after (gs ∷ gss) k (other, apart) (h, hs) =
      (Holds-same t d after gs (k t.path other) h, AllHold-others path ts d after gss k apart hs)

  -- Other tables under an open store.
  pub IsOpen-tables :
      (s : Store) (d after : Disk) (gss other : List (List Group)) (log : List WalEntry)
      (ts : List SsTable) (next : ℕ)
      → IsOpen s d gss log
      → after.faults ≡ []
      → BTreeMap.get s.wal.file_path after.files ≡ BTreeMap.get s.wal.file_path d.files
      → AllHold ts after other
      → IsSaved s.dir next ts other after
      → All (IsNamed s.dir next) ts
      → IsOpen (record s { sstables = ts; next_sstable_id = next }) after other log
  IsOpen-tables s d after gss other log ts next h works same holds saved named = record {
    works = works;
    counted = record { sorted = h.counted.sorted; exact = h.counted.exact };
    valid = h.valid;
    holds = holds;
    saved = saved;
    named = named;
    wal_named = h.wal_named;
    is_log = ap (λ o. elim o [ none ↦ [] | some b ↦ b ]) same ∙ h.is_log;
    log_valid = h.log_valid;
    closed = h.closed;
    replays = h.replays;
  }

-- A reader sees the memtable first and then what the tables show.
pub view-tables : (o a b : Option Entry) → seen a ≡ seen b → seen (or_else o a) ≡ seen (or_else o b)
view-tables none a b h = h
view-tables (some e) a b h = refl
