-- ===== src/Wal/Partial.antt =====
-- What the appends of ferrumdb-core/src/wal.rs leave in the log, whatever calls of the operating
-- system fail: the first bytes of what was to be written.
pub mod Calls
use ferrum_db.Base.{
  ℕ, ◌+◌, ◌-◌, ◌≤◌, ◌≡◌, ◌⊎◌, refl, ap, ◌∙◌, sym, subst, Bool, true, false, none, some, List, [],
  ◌∷◌, ◌++◌, length, take, leb, if◌then◌else◌, arith, append-nil, append_assoc, length-append,
  take_all, take-append_le, take-append_ge, take-nil, leb→le, Bool-cases, Option-cases, inl, inr,
}
use ferrum_db.Base.Bytes.{Bytes}
use ferrum_db.BTreeMap
use ferrum_db.BTreeMap.{BTreeMap}
use ferrum_db.BTreeMap.Lookup
use ferrum_db.Errors.{Result, ok, err, panic, io_error, os}
use ferrum_db.Proto.{WalEntry, Codec}
use ferrum_db.Disk.{
  Disk, Exec, Fault, pass, fail, ◌>>=◌, ◌>>◌, on_disk, contents, put_file, exists, open_create,
  write_all, sync_all,
}
use ferrum_db.Wal.{Wal, writer, open_writer, append, write_commit, commit_entry, frame}
use ferrum_db.Wal.Frames.{frames}

-- The file at `path` holds `x`, whether it was written or left as it was, and no other file and no
-- directory has changed.
abbrev pub Wrote : Bytes → Bytes → Disk → Disk → Type 0
Wrote path x d after =
    (after.dirs ≡ d.dirs)
    × (((after.files ≡ d.files) × (x ≡ contents path d))
        ⊎ (after.files ≡ BTreeMap.insert path x d.files))

-- The bytes of a file by the files.
abbrev bytes_in : Bytes → BTreeMap Bytes → Bytes
bytes_in path files = elim (BTreeMap.get path files) [ none ↦ [] | some b ↦ b ]

pub contents-Wrote :
    (path x : Bytes) (d after : Disk) → Wrote path x d after → contents path after ≡ x
contents-Wrote path x d after (dirs, inl (same, e)) = ap (bytes_in path) same ∙ sym e
contents-Wrote path x d after (dirs, inr files) =
    ap (bytes_in path) files
    ∙ ap (λ o. elim o [ none ↦ [] | some b ↦ b ]) (Lookup.get-insert_self path x d.files)

Wrote-trans :
    (path x y : Bytes) (d m after : Disk)
    → Wrote path x d m
    → Wrote path y m after
    → Wrote path y d after
Wrote-trans path x y d m after first (dirs, inl (same, e)) =
    subst (λ z. Wrote path z d after) (sym (e ∙ contents-Wrote path x d m first))
      (
        dirs ∙ first.0,
        elim first.1 [ inl (kept, old) ↦ inl (same ∙ kept, old) | inr files ↦ inr (same ∙ files) ],
      )
Wrote-trans path x y d m after (dirs', inl (same, e)) (dirs, inr files) =
    (dirs ∙ dirs', inr (files ∙ ap (BTreeMap.insert path y) same))
Wrote-trans path x y d m after (dirs', inr made) (dirs, inr files) = (
  dirs ∙ dirs',
  inr (files ∙ (ap (BTreeMap.insert path y) made ∙ Lookup.insert_twice path x y d.files)),
)

pub take_behind : (old b : Bytes) (n : ℕ) → take (length old + n) (old ++ b) ≡ old ++ take n b
take_behind old b n =
    let e : length old + n - length old ≡ n = omega arith in
    take-append_le old b (length old + n) (omega arith) ∙ rw e refl

append_after :
    (old b b' : Bytes) (n : ℕ) → (old ++ b) ++ take n b' ≡ old ++ take (length b + n) (b ++ b')
append_after old b b' n = append_assoc old b (take n b') ∙ ap (◌++◌ old) (sym (take_behind b b' n))

module _ {S : Type 0} (log_of : S → Wal × Disk) where
  -- The log has taken in the first bytes of `b`, and all of them where the call succeeded.
  pub record Logs (b : Bytes) (s : S) (x : Result (Unit {0}) × S) : Type 0 where
    pub n : ℕ
    pub le : n ≤ length b
    pub whole : x.0 ≡ ok tt → n ≡ length b
    pub path : (log_of x.1).0.file_path ≡ (log_of s).0.file_path
    pub wrote :
        Wrote
          (log_of s).0.file_path
          (contents (log_of s).0.file_path (log_of s).1 ++ take n b)
          (log_of s).1
          (log_of x.1).1

  -- A call that changes nothing.
  pub Logs-none :
      (b : Bytes) (s : S) (r : Result (Unit {0})) → (r ≡ ok tt → length b ≡ 0) → Logs b s (r, s)
  Logs-none b s r done = record {
    n = 0;
    le = omega arith;
    whole = λ e. sym (done e);
    path = refl;
    wrote = (refl, inl (refl, append-nil _));
  }

  Logs-stop :
      (b b' : Bytes) (s t : S) (r : Result (Unit {0}))
      → ¬ (r ≡ ok tt)
      → Logs b s (r, t)
      → Logs (b ++ b') s (r, t)
  Logs-stop b b' s t r stops l = record {
    n = l.n;
    le = omega (arith, l.le, length-append b b');
    whole = λ e. elim (stops e) [ ];
    path = l.path;
    wrote =
        subst
          (λ y.
            Wrote (log_of s).0.file_path (contents (log_of s).0.file_path (log_of s).1 ++ y)
              (log_of s).1 (log_of t).1)
          (sym (take-append_ge b b' l.n l.le)) l.wrote;
  }

  -- One call after another.
  pub Logs-then :
      (b b' : Bytes) (s : S) (x : Result (Unit {0}) × S) (k : Exec S (Unit {0}))
      → Logs b s x
      → (x.0 ≡ ok tt → Logs b' x.1 (k x.1))
      → Logs (b ++ b') s (((λ _. x) >> k) s)
  Logs-then b b' s (ok u, t) k l later =
      let m = later refl in
      let d = (log_of s).1 in
      let middle = (log_of t).1 in
      let end = (log_of (k t).1).1 in
      let file = (log_of s).0.file_path in
      let old = contents file d in
      let all : take l.n b ≡ b = take_all b l.n (omega (arith, l.whole refl)) in
      let first : Wrote file (old ++ b) d middle =
        subst (λ y. Wrote file (old ++ y) d middle) all l.wrote in
      let second : Wrote file (contents file middle ++ take m.n b') middle end =
        subst (λ q. Wrote q (contents q middle ++ take m.n b') middle end) l.path m.wrote in
      let third : Wrote file ((old ++ b) ++ take m.n b') middle end =
        subst (λ y. Wrote file (y ++ take m.n b') middle end)
          (contents-Wrote file (old ++ b) d middle first) second in
      record {
        n = length b + m.n;
        le = omega (arith, m.le, length-append b b');
        whole = λ e. omega (arith, m.whole e, length-append b b');
        path = m.path ∙ l.path;
        wrote =
            subst (λ y. Wrote file y d end) (append_after old b b' m.n)
              (Wrote-trans file (old ++ b) ((old ++ b) ++ take m.n b') d middle end first third);
      }
  Logs-then b b' s (err e, t) k l later = Logs-stop b b' s t (err e) (λ h. cc) l
  Logs-then b b' s (panic, t) k l later = Logs-stop b b' s t panic (λ h. cc) l
