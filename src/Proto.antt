-- ===== src/Proto.antt =====
-- ferrumdb-core/src/proto/store.proto and wal.proto: the messages, and the protobuf library as a
-- parameter. An i32 and an f64 stand as their bit patterns, a string as its UTF-8 bytes. The
-- accessor `operation()` is read off the field.
use ferrum_db.Base.{ℕ, ◌^◌, ◌<◌, ◌≡◌, Bool, true, Option, none, some, All}
use ferrum_db.Base.Bytes.{Bytes, IsByte}

pub data Kind : Type 0 where
  integer : ℕ → Kind
  float : ℕ → Kind
  text : Bytes → Kind
  boolean : Bool → Kind
  data_bytes : Bytes → Kind

-- `kind: None` is a message without the oneof.
pub record ValueMessage : Type 0 where
  pub kind : Option Kind

pub data Operation : Type 0 where
  put delete commit : Operation

pub record WalEntry : Type 0 where
  pub operation : Operation
  pub key : Bytes
  pub value : Option ValueMessage
  pub sequence : ℕ
  pub timestamp : ℕ

-- The values that the Rust types can hold; `is_utf8` is `String`'s own invariant.
abbrev pub IsKind : (Bytes → Bool) → Kind → Type 0
IsKind is_utf8 (integer n) = n < 2 ^ 32
IsKind is_utf8 (float n) = n < 2 ^ 64
IsKind is_utf8 (text s) = is_utf8 s ≡ true
IsKind is_utf8 (boolean b) = Unit
IsKind is_utf8 (data_bytes b) = All IsByte b

abbrev pub IsOptionKind : (Bytes → Bool) → Option Kind → Type 0
IsOptionKind is_utf8 none = Unit
IsOptionKind is_utf8 (some k) = IsKind is_utf8 k

abbrev pub IsValueMessage : (Bytes → Bool) → ValueMessage → Type 0
IsValueMessage is_utf8 m = IsOptionKind is_utf8 m.kind

abbrev pub IsOptionMessage : (Bytes → Bool) → Option ValueMessage → Type 0
IsOptionMessage is_utf8 none = Unit
IsOptionMessage is_utf8 (some m) = IsValueMessage is_utf8 m

pub record IsWalEntry (is_utf8 : Bytes → Bool) (e : WalEntry) : Type 0 where
  pub key_bytes : All IsByte e.key
  pub value_holds : IsOptionMessage is_utf8 e.value
  pub sequence_fits : e.sequence < 2 ^ 64
  pub timestamp_fits : e.timestamp < 2 ^ 64

-- prost's `encode_to_vec` and `decode` for the two message types; `none` is a decoding error.
-- The laws: a message that was encoded decodes to itself.
pub record Codec : Type 0 where
  pub is_utf8 : Bytes → Bool
  pub encode_value : ValueMessage → Bytes
  pub decode_value : Bytes → Option ValueMessage
  pub encode_entry : WalEntry → Bytes
  pub decode_entry : Bytes → Option WalEntry
  pub decode-encode_value :
      (m : ValueMessage) → IsValueMessage is_utf8 m → decode_value (encode_value m) ≡ some m
  pub decode-encode_entry :
      (e : WalEntry) → IsWalEntry is_utf8 e → decode_entry (encode_entry e) ≡ some e
