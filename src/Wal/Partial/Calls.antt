-- ===== src/Wal/Partial/Calls.antt =====
-- The calls of an append of ferrumdb-core/src/wal.rs, one by one, whatever fails.
use ferrum_db.Base.{
  ℕ, ◌≤◌, ◌≡◌, ◌⊎◌, refl, ap, ◌∙◌, sym, subst, true, false, none, some, List, [], ◌∷◌, ◌++◌, length,
  take, leb, if◌then◌else◌, arith, append-nil, take_all, leb→le, Bool-cases, Option-cases, inl, inr,
}
use ferrum_db.Base.Bytes.{Bytes}
use ferrum_db.BTreeMap
use ferrum_db.BTreeMap.{BTreeMap}
use ferrum_db.Errors.{Result, ok, err, panic, io_error, os}
use ferrum_db.Proto.{WalEntry, Codec}
use ferrum_db.Disk.{
  Disk, Fault, pass, fail, ◌>>◌, on_disk, contents, put_file, exists, open_create, write_all,
  sync_all,
}
use ferrum_db.Wal.{Wal, writer, open_writer, append, write_commit, commit_entry, frame}
use ferrum_db.Wal.Frames.{frames}
use ferrum_db.Wal.Partial.{Wrote, Logs, Logs-none, Logs-then}

-- The log and the disk.
abbrev itself : Wal × Disk → Wal × Disk
itself s = s

Fault-cases :
    (fs : List Fault)
    → (fs ≡ [])
      ⊎ ((rest : List Fault) × (fs ≡ pass ∷ rest))
      ⊎ ((n : ℕ) × (rest : List Fault) × (fs ≡ fail n ∷ rest))
Fault-cases [] = inl refl
Fault-cases (pass ∷ rest) = inr (inl (rest, refl))
Fault-cases (fail n ∷ rest) = inr (inr (n, rest, refl))

-- The file is there, or is made empty.
Wrote-opened :
    (path : Bytes) (d : Disk)
    → Wrote path (contents path d) d (if exists path d then d else put_file path [] d)
Wrote-opened path d = elim (Option-cases (BTreeMap.get path d.files)) [
  | inl absent ↦
      let empty : contents path d ≡ [] = ap (λ o. elim o [ none ↦ [] | some b ↦ b ]) absent in
      rw (absent, if◌then◌else◌) (refl, inr (ap (λ y. BTreeMap.insert path y d.files) (sym empty)))
  | inr (b, there) ↦ rw (there, if◌then◌else◌) (refl, inl (refl, refl))
]

Wrote-open_create :
    (path : Bytes) (d : Disk) → Wrote path (contents path d) d (open_create path d).1
unfolding open_create
Wrote-open_create path d = elim (Fault-cases d.faults) [
  | inl works ↦ rw works (Wrote-opened path (record d { faults = [] }))
  | inr (inl (rest, passes)) ↦ rw passes (Wrote-opened path (record d { faults = rest }))
  | inr (inr (n, rest, fails)) ↦ rw fails (refl, inl (refl, refl))
]

-- What a write of the first `n` bytes leaves.
Logs-part :
    (b : Bytes) (s : Wal × Disk) (n : ℕ) (rest : List Fault) (r : Result (Unit {0}))
    → n ≤ length b
    → (r ≡ ok tt → n ≡ length b)
    → Logs itself b s (
      r,
      (
        s.0,
        put_file s.0.file_path
            (contents s.0.file_path s.1 ++ take n b)
            (record s.1 { faults = rest }),
      ),
    )
Logs-part b s n rest r le whole = record {
  n = n;
  le = le;
  whole = whole;
  path = refl;
  wrote = (refl, inr refl);
}

Logs-full :
    (b : Bytes) (s : Wal × Disk) (rest : List Fault)
    → Logs itself b s (
      ok tt,
      (
        s.0,
        put_file s.0.file_path (contents s.0.file_path s.1 ++ b) (record s.1 { faults = rest }),
      ),
    )
Logs-full b s rest =
    subst
      (λ y. Logs itself b s (
        ok tt,
        (
          s.0,
          put_file s.0.file_path (contents s.0.file_path s.1 ++ y) (record s.1 { faults = rest }),
        ),
      ))
      (take_all b (length b) (omega arith))
      (Logs-part b s (length b) rest (ok tt) (omega arith) (λ e. refl))

Logs-cut :
    (b : Bytes) (s : Wal × Disk) (n : ℕ) (rest : List Fault) (r : Result (Unit {0}))
    → ¬ (r ≡ ok tt)
    → Logs itself b s (
      r,
      (
        s.0,
        put_file s.0.file_path
            (contents s.0.file_path s.1 ++ take n b)
            (record s.1 { faults = rest }),
      ),
    )
Logs-cut b s n rest r stops = elim (Bool-cases (leb n (length b))) [
  | inl inside ↦ Logs-part b s n rest r (leb→le n (length b) inside) (λ e. elim (stops e) [ ])
  | inr beyond ↦
      subst
        (λ y. Logs itself b s (
          r,
          (
            s.0,
            put_file s.0.file_path (contents s.0.file_path s.1 ++ y) (record s.1 { faults = rest }),
          ),
        ))
        (take_all b (length b) (omega arith) ∙ sym (take_all b n (ground (arith, beyond))))
        (Logs-part b s (length b) rest r (omega arith) (λ e. refl))
]

-- A call that leaves the files as they are.
Logs-kept :
    (s : Wal × Disk) (rest : List Fault) (r : Result (Unit {0}))
    → Logs itself [] s (r, (s.0, record s.1 { faults = rest }))
Logs-kept s rest r = record {
  n = 0;
  le = omega arith;
  whole = λ e. refl;
  path = refl;
  wrote = (refl, inl (refl, append-nil _));
}

write_all-Logs :
    (path b : Bytes) (s : Wal × Disk)
    → path ≡ s.0.file_path
    → Logs itself b s (on_disk (write_all path b) s)
unfolding write_all
write_all-Logs path b s same = rw same (elim (Fault-cases s.1.faults) [
  | inl works ↦ rw works (Logs-full b (s.0, record s.1 { faults = [] }) [])
  | inr (inl (rest, passes)) ↦
      rw passes (Logs-full b (s.0, record s.1 { faults = pass ∷ rest }) rest)
  | inr (inr (n, rest, fails)) ↦
      rw fails (
        Logs-cut b (s.0, record s.1 { faults = fail n ∷ rest }) n rest (err (io_error os))
          (λ e. cc))
])

sync_all-Logs : (path : Bytes) (s : Wal × Disk) → Logs itself [] s (on_disk (sync_all path) s)
unfolding sync_all
sync_all-Logs path s = elim (Fault-cases s.1.faults) [
  | inl works ↦ rw works (Logs-kept (s.0, record s.1 { faults = [] }) [] (ok tt))
  | inr (inl (rest, passes)) ↦
      rw passes (Logs-kept (s.0, record s.1 { faults = pass ∷ rest }) rest (ok tt))
  | inr (inr (n, rest, fails)) ↦
      rw fails (Logs-kept (s.0, record s.1 { faults = fail n ∷ rest }) rest (err (io_error os)))
]

Logs-open :
    (s : Wal × Disk) (w : Wal) (d : Disk) (r : Result (Unit {0}))
    → w.file_path ≡ s.0.file_path
    → Wrote s.0.file_path (contents s.0.file_path s.1) s.1 d
    → Logs itself [] s (r, (w, d))
Logs-open s w d r same wrote = record {
  n = 0;
  le = omega arith;
  whole = λ e. refl;
  path = same;
  wrote = subst (λ y. Wrote s.0.file_path y s.1 d) (sym (append-nil _)) wrote;
}

Logs-opened :
    (s : Wal × Disk) (x : Result (Unit {0}) × Disk)
    → Wrote s.0.file_path (contents s.0.file_path s.1) s.1 x.1
    → Logs itself [] s
        (((λ _. (x.0, (s.0, x.1))) >> (λ t. (ok tt, (record t.0 { file = true }, t.1)))) s)
Logs-opened s (ok u, d) w = Logs-open s (record s.0 { file = true }) d (ok tt) refl w
Logs-opened s (err e, d) w = Logs-open s s.0 d (err e) refl w
Logs-opened s (panic, d) w = Logs-open s s.0 d panic refl w

writer-Logs : (s : Wal × Disk) → Logs itself [] s (writer s)
unfolding writer open_writer
writer-Logs s = elim (Bool-cases s.0.file) [
  | inl cached ↦
      rw cached (Logs-none itself [] (record s.0 { file = true }, s.1) (ok tt) (λ e. refl))
  | inr closed ↦ rw closed (
      Logs-opened (record s.0 { file = false }, s.1) (open_create s.0.file_path s.1)
        (Wrote-open_create s.0.file_path s.1))
]

module _ ⦃c : Codec⦄ where
  pub append-Logs : (e : WalEntry) (s : Wal × Disk) → Logs itself (frames (e ∷ [])) s (append e s)
  unfolding append frames
  append-Logs e s =
      let b = frame e in
      Logs-then itself [] (b ++ []) s (writer s) _ (writer-Logs s) (λ done.
        subst (λ y. Logs itself y (writer s).1 (on_disk (write_all s.0.file_path b) (writer s).1))
          (sym (append-nil b))
          (write_all-Logs s.0.file_path b (writer s).1 (sym (writer-Logs s).path)))

  pub write_commit-Logs :
      (n : ℕ) (s : Wal × Disk) → Logs itself (frames (commit_entry n ∷ [])) s (write_commit n s)
  unfolding write_commit frames
  write_commit-Logs n s =
      let b = frame (commit_entry n) in
      let file = s.0.file_path in
      Logs-then itself [] (b ++ []) s (writer s) _ (writer-Logs s) (λ done.
        let t = (writer s).1 in
        Logs-then itself b [] t (on_disk (write_all file b) t) _
          (write_all-Logs file b t (sym (writer-Logs s).path))
          (λ wrote. sync_all-Logs file (on_disk (write_all file b) t).1))
