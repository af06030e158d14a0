-- ===== src/Errors.antt =====
-- ferrumdb-core/src/errors.rs, and the ways in which a call of the program ends. An error's text
-- is named by a constructor of `Message`; `panic` is an arithmetic overflow or a slice out of range.
use Prim.{⊥}
use ferrum_db.Base.{ℕ, ◌≡◌, refl}
use ferrum_db.Base.Bytes.{Bytes}

pub data Message : Type 0 where
  -- The text of an error of the operating system.
  os : Message
  -- The text of a decoding error of the protobuf library.
  malformed : Message
  no_kind : Message
  table_is_open : Bytes → Message
  smaller_than_footer : Message
  bad_magic : Message
  unsupported_version : ℕ → Message
  crc_mismatch : ℕ → Message
  unexpected_end : Message

pub data AppError : Type 0 where
  io_error : Message → AppError
  decode_error : Message → AppError
  key_not_found : Message → AppError
  internal_error : Message → AppError

pub data Result {ℓ} (A : Type ℓ) : Type ℓ where
  ok : A → Result A
  err : AppError → Result A
  panic : Result A

infixl 5 ◌>>=◌
abbrev pub ◌>>=◌ {ℓ κ} : {X : Type ℓ} {Y : Type κ} → Result X → (X → Result Y) → Result Y
panic >>= next = panic
err why >>= next = err why
ok x >>= next = next x

pub >>=-assoc {ℓ κ μ} :
    {X : Type ℓ} {Y : Type κ} {Z : Type μ} (m : Result X) (f : X → Result Y) (g : Y → Result Z)
    (h : X → Result Z)
    → ((x : X) → h x ≡ (f x >>= g))
    → (m >>= h) ≡ ((m >>= f) >>= g)
>>=-assoc (ok x) f g h e = e x
>>=-assoc (err why) f g h e = refl
>>=-assoc panic f g h e = refl

-- A result or an error.
abbrev pub Answers {ℓ} : {X : Type ℓ} → Result X → Type 0
Answers (ok x) = Unit
Answers (err why) = Unit
Answers panic = ⊥
