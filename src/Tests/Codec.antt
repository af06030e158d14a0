-- ===== src/Tests/Codec.antt =====
-- A codec with the laws that the protobuf library is taken to have: a tag for each case, and
-- numbers as single symbols.
use ferrum_db.Base.{
  ℕ, zero, suc, ◌≡◌, refl, Bool, true, false, Option, none, some, [], ◌∷◌, ◌++◌, length, take, drop,
  take-append, drop-append,
}
use ferrum_db.Base.Bytes.{Bytes}
use ferrum_db.Proto.{
  Kind, integer, float, text, boolean, data_bytes, ValueMessage, Operation, put, delete, commit,
  WalEntry, Codec,
}

-- Every string of bytes is taken for text.
any_text : Bytes → Bool
any_text s = true

unfoldable pub encode_kind : Option Kind → Bytes
encode_kind none = []
encode_kind (some (integer n)) = 1 ∷ n ∷ []
encode_kind (some (float n)) = 2 ∷ n ∷ []
encode_kind (some (text s)) = 3 ∷ s
encode_kind (some (boolean false)) = 4 ∷ 0 ∷ []
encode_kind (some (boolean true)) = 4 ∷ 1 ∷ []
encode_kind (some (data_bytes b)) = 5 ∷ b

unfoldable pub decode_kind : Bytes → Option (Option Kind)
decode_kind [] = some none
decode_kind (suc zero ∷ n ∷ []) = some (some (integer n))
decode_kind (suc (suc zero) ∷ n ∷ []) = some (some (float n))
decode_kind (suc (suc (suc zero)) ∷ s) = some (some (text s))
decode_kind (suc (suc (suc (suc zero))) ∷ zero ∷ []) = some (some (boolean false))
decode_kind (suc (suc (suc (suc zero))) ∷ suc zero ∷ []) = some (some (boolean true))
decode_kind (suc (suc (suc (suc (suc zero)))) ∷ b) = some (some (data_bytes b))
decode_kind _ = none

encode_operation : Operation → ℕ
encode_operation put = 0
encode_operation delete = 1
encode_operation commit = 2

decode_operation : ℕ → Option Operation
decode_operation zero = some put
decode_operation (suc zero) = some delete
decode_operation (suc (suc zero)) = some commit
decode_operation _ = none

encode_option : Option ValueMessage → Bytes
unfolding encode_kind
encode_option none = 0 ∷ []
encode_option (some m) = 1 ∷ encode_kind m.kind

as_message : Option (Option Kind) → Option (Option ValueMessage)
as_message none = none
as_message (some k) = some (some (record { kind = k }))

decode_option : Bytes → Option (Option ValueMessage)
unfolding decode_kind as_message
decode_option (zero ∷ []) = some none
decode_option (suc zero ∷ b) = as_message (decode_kind b)
decode_option _ = none

unfoldable pub encode_entry : WalEntry → Bytes
unfolding encode_operation encode_option
encode_entry e =
    encode_operation e.operation
    ∷ e.sequence
    ∷ e.timestamp
    ∷ length e.key
    ∷ (e.key ++ encode_option e.value)

with_value : Option Operation → Bytes → ℕ → ℕ → Option (Option ValueMessage) → Option WalEntry
with_value none key seq time v = none
with_value (some op) key seq time none = none
with_value (some op) key seq time (some v) =
    some (record { operation = op; key = key; value = v; sequence = seq; timestamp = time })

unfoldable pub decode_entry : Bytes → Option WalEntry
unfolding decode_operation decode_option with_value
decode_entry (op ∷ seq ∷ time ∷ len ∷ rest) =
    with_value (decode_operation op) (take len rest) seq time (decode_option (drop len rest))
decode_entry _ = none

pub decode_kind-encode_kind : (k : Option Kind) → decode_kind (encode_kind k) ≡ some k
unfolding decode_kind encode_kind
decode_kind-encode_kind none = refl
decode_kind-encode_kind (some (integer n)) = refl
decode_kind-encode_kind (some (float n)) = refl
decode_kind-encode_kind (some (text s)) = refl
decode_kind-encode_kind (some (boolean false)) = refl
decode_kind-encode_kind (some (boolean true)) = refl
decode_kind-encode_kind (some (data_bytes b)) = refl

decode_option-encode_option : (o : Option ValueMessage) → decode_option (encode_option o) ≡ some o
unfolding decode_option encode_option as_message
decode_option-encode_option none = refl
decode_option-encode_option (some m) = rw (decode_kind-encode_kind m.kind)

decode_operation-encode_operation : (o : Operation) → decode_operation (encode_operation o) ≡ some o
unfolding decode_operation encode_operation
decode_operation-encode_operation put = refl
decode_operation-encode_operation delete = refl
decode_operation-encode_operation commit = refl

pub decode_entry-encode_entry : (e : WalEntry) → decode_entry (encode_entry e) ≡ some e
unfolding decode_entry encode_entry with_value
decode_entry-encode_entry e =
    let value = encode_option e.value in
    rw (
      decode_operation-encode_operation e.operation,
      take-append e.key value (length e.key) refl,
      drop-append e.key value (length e.key) refl,
      decode_option-encode_option e.value,
    )

as_value : Option (Option Kind) → Option ValueMessage
as_value none = none
as_value (some k) = some (record { kind = k })

unfoldable pub sample_codec : Codec
unfolding any_text encode_kind decode_kind as_value encode_entry decode_entry
sample_codec = record {
  is_utf8 = any_text;
  encode_value = λ m. encode_kind m.kind;
  decode_value = λ b. as_value (decode_kind b);
  encode_entry = encode_entry;
  decode_entry = decode_entry;
  decode-encode_value = λ m h. rw (decode_kind-encode_kind m.kind);
  decode-encode_entry = λ e h. decode_entry-encode_entry e;
}
