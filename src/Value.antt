-- ===== src/Value.antt =====
-- `Value` and `entry_footprint` of ferrumdb-core/src/store.rs, `Entry` of sstable.rs.
use ferrum_db.Base.{ℕ, ◌+◌, ◌^◌, ◌<◌, ◌≡◌, refl, Bool, true, Option, none, some, All, length}
use ferrum_db.Base.Bytes.{Bytes, IsByte}
use ferrum_db.Errors.{Result, ok, err, decode_error, no_kind, Answers}
use ferrum_db.Proto.{Kind, ValueMessage, IsValueMessage}

pub data Value : Type 0 where
  integer : ℕ → Value
  float : ℕ → Value
  text : Bytes → Value
  boolean : Bool → Value
  bytes : Bytes → Value

pub data Entry : Type 0 where
  value : Value → Entry
  tombstone : Entry

to_kind : Value → Kind
to_kind (integer n) = Kind.integer n
to_kind (float n) = Kind.float n
to_kind (text s) = Kind.text s
to_kind (boolean b) = Kind.boolean b
to_kind (bytes b) = Kind.data_bytes b

unfoldable pub to_proto : Value → ValueMessage
unfolding to_kind
to_proto v = record { kind = some (to_kind v) }

from_kind : Option Kind → Result Value
from_kind (some (Kind.integer n)) = ok (integer n)
from_kind (some (Kind.float n)) = ok (float n)
from_kind (some (Kind.text s)) = ok (text s)
from_kind (some (Kind.boolean b)) = ok (boolean b)
from_kind (some (Kind.data_bytes b)) = ok (bytes b)
from_kind none = err (decode_error no_kind)

unfoldable pub from_proto : ValueMessage → Result Value
unfolding from_kind
from_proto m = from_kind m.kind

-- `value_bytes` of `entry_footprint`.
unfoldable pub value_bytes : Entry → ℕ
value_bytes (value (integer _)) = 4
value_bytes (value (float _)) = 8
value_bytes (value (boolean _)) = 1
value_bytes (value (text s)) = length s
value_bytes (value (bytes b)) = length b
value_bytes tombstone = 0

unfoldable pub entry_footprint : Bytes → Entry → ℕ
unfolding value_bytes
entry_footprint key entry = length key + value_bytes entry

-- The values that the Rust type can hold.
abbrev pub IsValue : (Bytes → Bool) → Value → Type 0
IsValue is_utf8 (integer n) = n < 2 ^ 32
IsValue is_utf8 (float n) = n < 2 ^ 64
IsValue is_utf8 (text s) = is_utf8 s ≡ true
IsValue is_utf8 (boolean b) = Unit
IsValue is_utf8 (bytes b) = All IsByte b

abbrev pub IsEntry : (Bytes → Bool) → Entry → Type 0
IsEntry is_utf8 (value v) = IsValue is_utf8 v
IsEntry is_utf8 tombstone = Unit

pub to_proto-IsValueMessage :
    (is_utf8 : Bytes → Bool) (v : Value) → IsValue is_utf8 v → IsValueMessage is_utf8 (to_proto v)
unfolding to_proto
to_proto-IsValueMessage u (integer n) h = h
to_proto-IsValueMessage u (float n) h = h
to_proto-IsValueMessage u (text s) h = h
to_proto-IsValueMessage u (boolean b) h = h
to_proto-IsValueMessage u (bytes b) h = h

from_kind-Answers : (k : Option Kind) → Answers (from_kind k)
unfolding from_kind
from_kind-Answers none = tt
from_kind-Answers (some (Kind.integer n)) = tt
from_kind-Answers (some (Kind.float n)) = tt
from_kind-Answers (some (Kind.text s)) = tt
from_kind-Answers (some (Kind.boolean b)) = tt
from_kind-Answers (some (Kind.data_bytes b)) = tt

-- A message gives a value or an error.
pub from_proto-Answers : (m : ValueMessage) → Answers (from_proto m)
unfolding from_proto
from_proto-Answers m = from_kind-Answers m.kind

-- `from_proto` reads back every value that `to_proto` wrote.
pub from_proto-to_proto : (v : Value) → from_proto (to_proto v) ≡ ok v
unfolding from_proto to_proto
from_proto-to_proto (integer n) = refl
from_proto-to_proto (float n) = refl
from_proto-to_proto (text s) = refl
from_proto-to_proto (boolean b) = refl
from_proto-to_proto (bytes b) = refl
