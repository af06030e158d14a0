-- ===== src/Wal/Parse.antt =====
-- `parse_buffer` on a log that was cut after any number of bytes.
use ferrum_db.Base.{
  ℕ, zero, suc, ◌+◌, ◌-◌, ◌^◌, ◌≤◌, ◌<◌, ◌≡◌, refl, List, [], ◌∷◌, ◌++◌, length, take, leb, ltb,
  le→leb_false, take-nil, arith, length-append, All, some, take-append, drop-append, take-append_le,
  take-append_ge, length-take, inl, inr, Bool-cases, leb→le, lt→ltb, ltb→lt,
}
use ferrum_db.Base.Bytes.{Bytes}
use ferrum_db.Base.Words.{u64_bytes, from_be-u64_bytes}
use ferrum_db.Errors.{ok}
use ferrum_db.Proto.{WalEntry, Codec, IsWalEntry}
use ferrum_db.Wal.{frame, Parsed, accept, parse_loop, parse_buffer, nothing_parsed}
use ferrum_db.Wal.Frames.{frames, whole, length-frame}

module _ ⦃c : Codec⦄ where
  -- What the loop gathers from whole records, the first of which starts at `offset`.
  unfoldable pub accept_all : ℕ → List WalEntry → Parsed → Parsed
  accept_all offset [] p = p
  accept_all offset (e ∷ es) p =
      let end = offset + length (frame e) in accept_all end es (accept (some e) end p)

  parse_loop-frame :
      (e : WalEntry) (rest : Bytes) (fuel offset : ℕ) (p : Parsed)
      → IsWalEntry c.is_utf8 e
      → offset + length (frame e) < 2 ^ 64
      → parse_loop (suc fuel) (frame e ++ rest) offset p
        ≡ parse_loop fuel rest
            (offset + length (frame e))
            (accept (some e) (offset + length (frame e)) p)
  unfolding parse_loop frame u64_bytes
  parse_loop-frame e rest fuel offset p w fits =
      let bytes = c.encode_entry e in
      ground (
        arith,
        length-append bytes rest,
        from_be-u64_bytes (length bytes),
        take-append bytes rest (length bytes),
        drop-append bytes rest (length bytes),
        c.decode-encode_entry e w,
        length-frame e,
      )

  -- Fewer bytes than a length prefix stop the loop.
  parse_loop-short :
      (xs : Bytes) (fuel offset : ℕ) (p : Parsed)
      → length xs < 8
      → length xs ≤ fuel
      → parse_loop fuel xs offset p ≡ ok p
  unfolding parse_loop
  parse_loop-short [] zero offset p short enough = refl
  parse_loop-short [] (suc fuel) offset p short enough = refl
  parse_loop-short (b ∷ bs) zero offset p short enough = absurd (omega arith)
  parse_loop-short (b ∷ bs) (suc fuel) offset p short enough = rw (lt→ltb _ _ short)

  -- So does a frame whose body is cut.
  parse_loop-torn_body :
      (e : WalEntry) (m fuel offset : ℕ) (p : Parsed)
      → m < length (c.encode_entry e)
      → offset + length (frame e) < 2 ^ 64
      → parse_loop
          (suc fuel)
          (take (suc (suc (suc (suc (suc (suc (suc (suc m)))))))) (frame e))
          offset
          p
        ≡ ok p
  unfolding parse_loop frame u64_bytes
  parse_loop-torn_body e m fuel offset p cut fits =
      let bytes = c.encode_entry e in
      ground (arith, length-take m bytes, from_be-u64_bytes (length bytes), length-frame e)

  parse_loop-torn :
      (e : WalEntry) (n fuel offset : ℕ) (p : Parsed)
      → n < length (frame e)
      → n ≤ fuel
      → offset + length (frame e) < 2 ^ 64
      → parse_loop fuel (take n (frame e)) offset p ≡ ok p
  parse_loop-torn e n zero offset p cut enough fits =
      parse_loop-short (take n (frame e)) zero offset p (omega (arith, length-take n (frame e)))
        (omega (arith, length-take n (frame e)))
  parse_loop-torn e n (suc fuel) offset p cut enough fits = elim (Bool-cases (ltb n 8)) [
    | inl short ↦
        parse_loop-short (take n (frame e)) (suc fuel) offset p
          (omega (arith, length-take n (frame e), ltb→lt n 8 short))
          (omega (arith, length-take n (frame e)))
    | inr long ↦
        let le : 8 ≤ n = ground arith in
        let split : suc (suc (suc (suc (suc (suc (suc (suc (n - 8)))))))) ≡ n = omega arith in
        rw split at
          (parse_loop-torn_body e (n - 8) fuel offset p (omega (arith, length-frame e)) fits)
  ]

  pub parse_loop-cut :
      (es : List WalEntry) (n fuel offset : ℕ) (p : Parsed)
      → All (IsWalEntry c.is_utf8) es
      → n ≤ fuel
      → offset + length (frames es) < 2 ^ 64
      → parse_loop fuel (take n (frames es)) offset p ≡ ok (accept_all offset (whole n es) p)
  unfolding frames whole accept_all
  parse_loop-cut [] n fuel offset p w enough fits =
      rw (take-nil n) (parse_loop-short [] fuel offset p (omega arith) (omega arith))
  parse_loop-cut (e ∷ es) n zero offset p w enough fits =
      rw
        (
          le→leb_false n (length (frame e)) (omega (arith, length-frame e)),
          take-append_ge (frame e) (frames es) n (omega arith),
        )
        (parse_loop-torn e n zero offset p (omega (arith, length-frame e)) enough
          (omega (arith, length-append (frame e) (frames es))))
  parse_loop-cut (e ∷ es) n (suc fuel) offset p w enough fits =
      elim (Bool-cases (leb (length (frame e)) n)) [
        | inl in_full ↦
            let rest = n - length (frame e) in
            let size = leb→le (length (frame e)) n in_full in
            rw
              (
                in_full,
                take-append_le (frame e) (frames es) n size,
                parse_loop-frame e (take rest (frames es)) fuel offset p w.0
                    (omega (arith, length-append (frame e) (frames es))),
              )
              (parse_loop-cut es rest fuel (offset + length (frame e))
                (accept (some e) (offset + length (frame e)) p) w.1 (omega (arith, length-frame e))
                (omega (arith, length-append (frame e) (frames es))))
        | inr torn ↦
            rw (torn, take-append_ge (frame e) (frames es) n (ground arith))
              (parse_loop-torn e n (suc fuel) offset p (ground arith) enough
                (omega (arith, length-append (frame e) (frames es))))
      ]

  -- `parse_buffer` of any prefix of the frames of entries that the Rust types can hold, shorter
  -- than 2^64 bytes, does not panic or run out of fuel: it takes in exactly the entries whose
  -- frames survived whole, one after the other.
  pub parse_buffer-cut :
      (es : List WalEntry) (n : ℕ)
      → All (IsWalEntry c.is_utf8) es
      → length (frames es) < 2 ^ 64
      → n ≤ length (frames es)
      → parse_buffer (take n (frames es)) ≡ ok (accept_all 0 (whole n es) nothing_parsed)
  unfolding parse_buffer
  parse_buffer-cut es n w fits cut =
      parse_loop-cut es n (length (take n (frames es))) 0 nothing_parsed w
        (omega (arith, length-take n (frames es))) (omega arith)
