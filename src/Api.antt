-- ===== src/Api.antt =====
-- ferrumdb/src/error.rs, and calls that end in its errors.
use ferrum_db.Base.Bytes.{Bytes}
use ferrum_db.Errors.{AppError, io_error, decode_error, key_not_found, internal_error, Message}
use ferrum_db.Errors
use ferrum_db.Disk.{Exec}

pub data Error : Type 0 where
  io : Message → Error
  invalid_table_name : Bytes → Error
  table_exists : Bytes → Error
  table_not_found : Bytes → Error
  unexpected_value : Error
  internal : Message → Error

-- `From<AppError>`
unfoldable pub from_app : AppError → Error
from_app (io_error m) = io m
from_app (decode_error m) = internal m
from_app (internal_error m) = internal m
from_app (key_not_found m) = internal m

-- `Result<A, Error>`, and a panic.
pub data Result (A : Type 0) : Type 0 where
  ok : A → Result A
  err : Error → Result A
  panic : Result A

abbrev pub Call : Type 0 → Type 0 → Type 0
Call S A = S → Result A × S

abbrev continue : {S A B : Type 0} → Result A → (A → Call S B) → Call S B
continue (ok a) f s = f a s
continue (err e) f s = (err e, s)
continue panic f s = (panic, s)

infixl 5 ◌>>=◌ ◌>>◌
abbrev pub ◌>>=◌ : {S A B : Type 0} → Call S A → (A → Call S B) → Call S B
◌>>=◌ m f s = let (r, s') = m s in continue r f s'

abbrev pub ◌>>◌ : {S B : Type 0} → Call S (Unit {0}) → Call S B → Call S B
m >> k = m >>= λ _. k

abbrev pub pure : {S A : Type 0} → A → Call S A
pure a s = (ok a, s)

abbrev pub lift : {S A : Type 0} → Result A → Call S A
lift r s = (r, s)

-- The `?` behind a call of the core, which converts its error.
unfoldable pub converted : {A : Type 0} → Errors.Result A → Result A
converted (Errors.ok a) = ok a
converted (Errors.err e) = err (from_app e)
converted Errors.panic = panic

abbrev pub core : {S A : Type 0} → Exec S A → Call S A
core m s = let (r, s') = m s in (converted r, s')
