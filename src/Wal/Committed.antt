-- ===== src/Wal/Committed.antt =====
-- The committed part of a log: the entries up to and including the last COMMIT.
use ferrum_db.Base.{
  ℕ, ◌+◌, ◌-◌, ◌≤◌, ◌≡◌, refl, ap, ◌∙◌, sym, List, [], ◌∷◌, ◌++◌, length, take, drop, if◌then◌else◌,
  arith, length-append, append_assoc, append-nil, some, true, false, Bool, length-take, take-append,
  take-append-drop,
}
use ferrum_db.Base.Bytes.{Bytes}
use ferrum_db.Proto.{WalEntry, Operation, put, delete, commit, Codec}
use ferrum_db.Wal.{frame, Parsed, accept, nothing_parsed}
use ferrum_db.Wal.Frames.{frames, whole, frames-append}
use ferrum_db.Wal.Parse.{accept_all}

unfoldable pub is_commit : Operation → Bool
is_commit commit = true
is_commit put = false
is_commit delete = false

-- `e` in front of a committed part.
abbrev before : WalEntry → List WalEntry → List WalEntry
before e [] = if is_commit e.operation then e ∷ [] else []
before e (x ∷ xs) = e ∷ x ∷ xs

unfoldable pub committed : List WalEntry → List WalEntry
unfolding is_commit
committed [] = []
committed (e ∷ es) = before e (committed es)

-- What `accept_all` makes of the counters, where the entries read so far end in the last COMMIT.
module _ ⦃c : Codec⦄ where
  or_last : List WalEntry → ℕ → ℕ → ℕ
  or_last [] old new = old
  or_last (x ∷ xs) old new = new

  entries-accept_all :
      (es : List WalEntry) (offset : ℕ) (p : Parsed)
      → (accept_all offset es p).entries ≡ p.entries ++ es
  unfolding accept_all accept
  entries-accept_all [] offset p = sym (append-nil p.entries)
  entries-accept_all (e ∷ es) offset p =
      let end = offset + length (frame e) in
      ground (
        arith,
        entries-accept_all es end (accept (some e) end p),
        append_assoc p.entries (e ∷ []) es,
      )

  count-accept_all :
      (es : List WalEntry) (offset : ℕ) (p : Parsed)
      → (accept_all offset es p).committed_count
        ≡ or_last (committed es) p.committed_count (length p.entries + length (committed es))
  unfolding accept_all accept committed or_last
  count-accept_all [] offset p = refl
  count-accept_all (e ∷ es) offset p =
      let end = offset + length (frame e) in
      ground
        (arith, count-accept_all es end (accept (some e) end p), length-append p.entries (e ∷ []))

  end-accept_all :
      (es : List WalEntry) (offset : ℕ) (p : Parsed)
      → (accept_all offset es p).committed_end
        ≡ or_last (committed es) p.committed_end (offset + length (frames (committed es)))
  unfolding accept_all accept committed or_last frames
  end-accept_all [] offset p = refl
  end-accept_all (e ∷ es) offset p =
      let end = offset + length (frame e) in
      ground (
        arith,
        end-accept_all es end (accept (some e) end p),
        length-append (frame e) (frames (committed es)),
        append-nil (frame e),
      )

  -- The committed part is a first part of the log.
  pub take-committed : (es : List WalEntry) → take (length (committed es)) es ≡ committed es
  unfolding committed
  take-committed [] = refl
  take-committed (e ∷ es) = ground (arith, take-committed es)

  take-frames-append :
      (xs ys : List WalEntry) (tail : Bytes)
      → take (length (frames xs)) (frames (xs ++ ys) ++ tail) ≡ frames xs
  take-frames-append xs ys tail =
      rw (frames-append xs ys, append_assoc (frames xs) (frames ys) tail)
        (take-append (frames xs) (frames ys ++ tail) (length (frames xs)) refl)

  pub take-frames-committed :
      (es : List WalEntry) (tail : Bytes)
      → take (length (frames (committed es))) (frames es ++ tail) ≡ frames (committed es)
  take-frames-committed es tail =
      let n = length (committed es) in
      let split = rw (take-committed es) at (take-append-drop n es) in
      ap (λ t. take (length (frames (committed es))) (frames t ++ tail)) (sym split)
      ∙ take-frames-append (committed es) (drop n es) tail

  -- The committed part is no longer than the log.
  pub frames-committed-le :
      (es : List WalEntry) (tail : Bytes)
      → length (frames (committed es)) ≤ length (frames es ++ tail)
  frames-committed-le es tail = omega (
    arith,
    ap length (take-frames-committed es tail),
    length-take (length (frames (committed es))) (frames es ++ tail),
  )

  pub committed-committed : (es : List WalEntry) → committed (committed es) ≡ committed es
  unfolding committed
  committed-committed [] = refl
  committed-committed (e ∷ es) = ground (arith, committed-committed es)

  -- A batch of entries and its COMMIT commit all that stands before them.
  pub committed-append_commit :
      (es : List WalEntry) (e : WalEntry)
      → is_commit e.operation ≡ true
      → committed (es ++ (e ∷ [])) ≡ es ++ (e ∷ [])
  unfolding committed
  committed-append_commit [] e h = rw h
  committed-append_commit (x ∷ es) e h = rw (committed-append_commit es e h) (before_snoc x es e)
    where
      before_snoc :
          (x : WalEntry) (es : List WalEntry) (e : WalEntry)
          → before x (es ++ (e ∷ [])) ≡ x ∷ (es ++ (e ∷ []))
      before_snoc x [] e = refl
      before_snoc x (y ∷ ys) e = refl

  -- A cut behind the last COMMIT loses nothing that is committed.
  pub committed-whole :
      (es : List WalEntry) (n : ℕ)
      → length (frames (committed es)) ≤ n
      → committed (whole n es) ≡ committed es
  unfolding committed whole frames
  committed-whole [] n h = refl
  committed-whole (e ∷ es) n h = ground (
    arith,
    committed-whole es (n - length (frame e)),
    length-append (frame e) (frames (committed es)),
    append-nil (frame e),
  )

  -- What `parse_buffer` counts on entries from the start of the log.
  pub accept_all-committed :
      (es : List WalEntry)
      → ((accept_all 0 es nothing_parsed).entries ≡ es)
        × ((accept_all 0 es nothing_parsed).committed_count ≡ length (committed es))
        × ((accept_all 0 es nothing_parsed).committed_end ≡ length (frames (committed es)))
  unfolding or_last frames
  accept_all-committed es = ground (
    arith,
    entries-accept_all es 0 nothing_parsed,
    count-accept_all es 0 nothing_parsed,
    end-accept_all es 0 nothing_parsed,
  )
