-- ===== src/Wal/Frames.antt =====
-- The bytes of a log, and a log that a crash cut short.
use ferrum_db.Base.{
  ℕ, ◌+◌, ◌-◌, ◌≤◌, ◌≡◌, refl, List, [], ◌∷◌, ◌++◌, length, take, leb, if◌then◌else◌, arith,
  length-append, append_assoc, All, Bool-cases, inl, inr, leb→le, take-nil, take-append_le,
}
use ferrum_db.Base.Bytes.{Bytes}
use ferrum_db.Base.Words.{u64_bytes, length-u64_bytes}
use ferrum_db.Proto.{WalEntry, Codec}
use ferrum_db.Wal.{frame}

module _ ⦃c : Codec⦄ where
  -- The log that holds the entries in order.
  unfoldable pub frames : List WalEntry → Bytes
  frames [] = []
  frames (e ∷ es) = frame e ++ frames es

  -- The entries that lie whole within the first `n` bytes of their log.
  unfoldable pub whole : ℕ → List WalEntry → List WalEntry
  whole n [] = []
  whole n (e ∷ es) =
      let rest = whole (n - length (frame e)) es in
      if leb (length (frame e)) n then e ∷ rest else []

  pub length-frame : (e : WalEntry) → length (frame e) ≡ 8 + length (c.encode_entry e)
  unfolding frame
  length-frame e = omega (
    arith,
    length-append (u64_bytes (length (c.encode_entry e))) (c.encode_entry e),
    length-u64_bytes (length (c.encode_entry e)),
  )

  pub frames-append : (es fs : List WalEntry) → frames (es ++ fs) ≡ frames es ++ frames fs
  unfolding frames
  frames-append [] fs = refl
  frames-append (e ∷ es) fs = rw (frames-append es fs, append_assoc)

  pub whole_all : (n : ℕ) (es : List WalEntry) → length (frames es) ≤ n → whole n es ≡ es
  unfolding frames whole
  whole_all n [] h = refl
  whole_all n (e ∷ es) h =
      ground (arith, length-append (frame e) (frames es), whole_all (n - length (frame e)) es)

  -- A cut log is its whole records and a torn one.
  pub take-frames :
      (n : ℕ) (es : List WalEntry)
      → (torn : Bytes) × (take n (frames es) ≡ frames (whole n es) ++ torn)
  unfolding frames whole
  take-frames n [] = ([], take-nil n)
  take-frames n (e ∷ es) = elim (Bool-cases (leb (length (frame e)) n)) [
    | inl in_full ↦
        let (torn, rest) = take-frames (n - length (frame e)) es in
        let size = leb→le (length (frame e)) n in_full in
        (
          torn,
          rw (
            in_full,
            take-append_le (frame e) (frames es) n size,
            rest,
            append_assoc (frame e) (frames (whole (n - length (frame e)) es)) torn,
          ),
        )
    | inr cut ↦ (take n (frame e ++ frames es), rw cut)
  ]

  pub All-whole {κ} :
      (P : WalEntry → Type κ) (n : ℕ) (es : List WalEntry) → All P es → All P (whole n es)
  unfolding whole
  All-whole P n [] h = tt
  All-whole P n (e ∷ es) h = ground (arith, All-whole P (n - length (frame e)) es h.1)
