-- ===== src/Store/Replay/Batches.antt =====
-- What replaying committed batches makes of an empty memtable.
use ferrum_db.Base.{
  ℕ, ◌+◌, max, ◌≡◌, refl, ap, ◌∙◌, Option, none, some, List, [], ◌∷◌, ◌++◌, append_assoc,
  append-nil, ◌⊎◌, inl, inr,
}
use ferrum_db.BTreeMap.{BTreeMap, IsSorted, insert}
use ferrum_db.BTreeMap.Order.{insert-IsSorted}
use ferrum_db.Errors.{ok, ◌>>=◌, >>=-assoc}
use ferrum_db.Proto.{WalEntry, Operation, put, delete, commit}
use ferrum_db.Value.{Value, Entry, from_proto-to_proto}
use ferrum_db.Wal.{create_put_entry, create_delete_entry}
use ferrum_db.Store.{Store}
use ferrum_db.Store.Memtable.{IsCounted, total, memtable_insert-total}
use ferrum_db.Store.Write.{log_entry, memtable_entry}
use ferrum_db.Store.Replay.{replay_put, replay_one, note_sequence, replay_pending, replay}

-- Every batch of the log has its COMMIT; `pending` stands before it.
abbrev pub IsClosed : List WalEntry → List WalEntry → Type 0
IsClosed [] pending = pending ≡ []
IsClosed (e ∷ es) pending = elim e.operation [
  | put ↦ IsClosed es (pending ++ (e ∷ []))
  | delete ↦ IsClosed es (pending ++ (e ∷ []))
  | commit ↦ IsClosed es []
]

pub Operation-cases : (o : Operation) → (o ≡ put) ⊎ (o ≡ delete) ⊎ (o ≡ commit)
Operation-cases put = inl refl
Operation-cases delete = inr (inl refl)
Operation-cases commit = inr (inr refl)

-- A closed log is replayed first, and what follows it starts with nothing pending.
replay-append :
    (xs ys pending : List WalEntry) (s : Store)
    → IsClosed xs pending
    → replay (xs ++ ys) pending s ≡ (replay xs pending s >>= replay ys [])
unfolding replay
replay-append [] ys pending s closed = rw closed
replay-append (e ∷ xs) ys pending s closed = elim (Operation-cases e.operation) [
  | inl is_put ↦ rw is_put (replay-append xs ys (pending ++ (e ∷ [])) s (rw is_put at closed))
  | inr (inl is_delete) ↦
      rw is_delete (replay-append xs ys (pending ++ (e ∷ [])) s (rw is_delete at closed))
  | inr (inr is_commit) ↦
      let rest = rw is_commit at closed in
      rw is_commit (
        >>=-assoc (replay_pending pending s) (λ t. replay xs [] (note_sequence e.sequence t))
          (replay ys []) (λ t. replay (xs ++ ys) [] (note_sequence e.sequence t))
          (λ t. replay-append xs ys [] (note_sequence e.sequence t) rest))
]

pub IsClosed-append :
    (xs ys pending : List WalEntry)
    → IsClosed xs pending
    → IsClosed ys []
    → IsClosed (xs ++ ys) pending
IsClosed-append [] ys pending closed after = rw closed after
IsClosed-append (e ∷ xs) ys pending closed after = elim (Operation-cases e.operation) [
  | inl is_put ↦
      rw (is_put, IsClosed)
        (IsClosed-append xs ys (pending ++ (e ∷ [])) (rw is_put at closed) after)
  | inr (inl is_delete) ↦
      rw (is_delete, IsClosed)
        (IsClosed-append xs ys (pending ++ (e ∷ [])) (rw is_delete at closed) after)
  | inr (inr is_commit) ↦
      rw (is_commit, IsClosed) (IsClosed-append xs ys [] (rw is_commit at closed) after)
]

-- The entries of the log for the writes of a batch, numbered from `n + 1` on.
unfoldable pub batch_entries : ℕ → BTreeMap (Option Value) → List WalEntry
batch_entries n [] = []
batch_entries n ((k, v) ∷ ps) = log_entry k v (n + 1) ∷ batch_entries (n + 1) ps

-- The memtable after the writes of a batch.
unfoldable pub put_all : BTreeMap (Option Value) → BTreeMap Entry → BTreeMap Entry
put_all [] m = m
put_all ((k, v) ∷ ps) m = put_all ps (insert k (memtable_entry v) m)

replay-batch :
    (ps : BTreeMap (Option Value)) (n : ℕ) (ys pending : List WalEntry) (s : Store)
    → replay (batch_entries n ps ++ ys) pending s ≡ replay ys (pending ++ batch_entries n ps) s
unfolding batch_entries replay log_entry create_put_entry create_delete_entry
replay-batch [] n ys pending s = rw (append-nil pending)
replay-batch ((k, some v) ∷ ps) n ys pending s =
    let e = log_entry k (some v) (n + 1) in
    replay-batch ps (n + 1) ys (pending ++ (e ∷ [])) s
    ∙ rw (append_assoc pending (e ∷ []) (batch_entries (n + 1) ps))
replay-batch ((k, none) ∷ ps) n ys pending s =
    let e = log_entry k none (n + 1) in
    replay-batch ps (n + 1) ys (pending ++ (e ∷ [])) s
    ∙ rw (append_assoc pending (e ∷ []) (batch_entries (n + 1) ps))

pub IsClosed-batch :
    (ps : BTreeMap (Option Value)) (n : ℕ) (e : WalEntry) (pending : List WalEntry)
    → e.operation ≡ commit
    → IsClosed (batch_entries n ps ++ (e ∷ [])) pending
unfolding batch_entries log_entry create_put_entry create_delete_entry
IsClosed-batch [] n e pending h = rw (h, IsClosed) refl
IsClosed-batch ((k, some v) ∷ ps) n e pending h =
    IsClosed-batch ps (n + 1) e (pending ++ (log_entry k (some v) (n + 1) ∷ [])) h
IsClosed-batch ((k, none) ∷ ps) n e pending h =
    IsClosed-batch ps (n + 1) e (pending ++ (log_entry k none (n + 1) ∷ [])) h

-- A store with another memtable, its exact size, and another sequence number.
abbrev pub with_memtable : Store → BTreeMap Entry → ℕ → Store
with_memtable s m n = record s { memtable = m; memtable_bytes = total m; sequence = n }

pub put_all-IsSorted :
    (ps : BTreeMap (Option Value)) (m : BTreeMap Entry) → IsSorted m → IsSorted (put_all ps m)
unfolding put_all
put_all-IsSorted [] m s = s
put_all-IsSorted ((k, v) ∷ ps) m s =
    put_all-IsSorted ps (insert k (memtable_entry v) m) (insert-IsSorted k (memtable_entry v) m s)

replay_pending-batch :
    (ps : BTreeMap (Option Value)) (n : ℕ) (s : Store)
    → IsCounted s
    → (last : ℕ) × (replay_pending (batch_entries n ps) s
        ≡ ok (with_memtable s (put_all ps s.memtable) last))
unfolding replay_pending batch_entries put_all log_entry create_put_entry create_delete_entry
    replay_one replay_put memtable_entry note_sequence
replay_pending-batch [] n s v = (s.sequence, ap ok (rw (← v.exact)))
replay_pending-batch ((k, some v) ∷ ps) n s h =
    let m = insert k (Entry.value v) s.memtable in
    let t = with_memtable s m (max s.sequence (n + 1)) in
    let (last, rest) =
      replay_pending-batch ps (n + 1) t
        (record { sorted = insert-IsSorted k (Entry.value v) s.memtable h.sorted; exact = refl }) in
    (last, rw (from_proto-to_proto v, memtable_insert-total k (Entry.value v) s h) rest)
replay_pending-batch ((k, none) ∷ ps) n s h =
    let m = insert k Entry.tombstone s.memtable in
    let t = with_memtable s m (max s.sequence (n + 1)) in
    let (last, rest) =
      replay_pending-batch ps (n + 1) t
        (record { sorted = insert-IsSorted k Entry.tombstone s.memtable h.sorted; exact = refl }) in
    (last, rw (memtable_insert-total k Entry.tombstone s h) rest)

-- Replaying the log over an empty memtable gives the memtable `m`.
abbrev pub Replays : List WalEntry → BTreeMap Entry → Type 0
Replays log m =
    (w : Store)
    → w.memtable ≡ []
    → w.memtable_bytes ≡ 0
    → (last : ℕ) × (replay log [] w ≡ ok (with_memtable w m last))

pub Replays-empty : Replays [] []
unfolding replay total
Replays-empty w empty counted = (w.sequence, rw (empty, counted))

-- A batch and its COMMIT, behind a closed log.
pub Replays-batch :
    (log : List WalEntry) (m : BTreeMap Entry) (ps : BTreeMap (Option Value)) (n : ℕ) (e : WalEntry)
    → IsClosed log []
    → IsSorted m
    → Replays log m
    → e.operation ≡ commit
    → Replays (log ++ (batch_entries n ps ++ (e ∷ []))) (put_all ps m)
unfolding replay
Replays-batch log m ps n e closed sorted before h w empty counted =
    let (last, old) = before w empty counted in
    let s = with_memtable w m last in
    let (new, all) = replay_pending-batch ps n s (record { sorted = sorted; exact = refl }) in
    let t = with_memtable w (put_all ps m) new in
    (
      max new e.sequence,
      rw
          (
            replay-append log (batch_entries n ps ++ (e ∷ [])) [] w closed,
            old,
            replay-batch ps n (e ∷ []) [] s,
            h,
            all,
          )
          (unfold note_sequence in refl),
    )
