-- ===== src/Protocol/RoundTrip.antt =====
-- Messages with any payload of JSON (`protocol_serialize_msg` and `protocol_parse_msg` of src/protocol.c).
use mini_coin_slovak.Base.{◌≡◌, refl, ap, ◌∙◌, true, some, [], ◌∷◌, ◌++◌, All}
use mini_coin_slovak.Base.Int.{pos}
use mini_coin_slovak.CLib.{Bytes, codes}
use mini_coin_slovak.Json.Nested.{braced}
use mini_coin_slovak.Message.{MsgType, number_of, protocol_serialize_msg, protocol_parse_msg}
use mini_coin_slovak.Protocol.Messages.{serialized-message, protocol_parse_msg-message}
use mini_coin_slovak.Protocol.NestedPayloads.{braced-IsPayload}
use mini_coin_slovak.Protocol.Nesting.{
  Glides, Glides-append, quiet-Glides, is_quiet, string-Glides, enclosed-Glides, Glides-nil,
}
use mini_coin_slovak.Protocol.Payload.{IsPlainText}

-- Text in which every string, object and array that begins also ends: nothing; bytes that are neither quotes
-- nor backslashes nor brackets; a string without quotes and backslashes; an object; an array; and one such
-- text behind the other.
pub data IsNested : Bytes → Type 0 where
  nested_nothing : IsNested []
  nested_bytes : (s : Bytes) → All (λ c. is_quiet c ≡ true) s → IsNested s
  nested_string : (s : Bytes) → IsPlainText s → IsNested (b'"' ∷ (s ++ (b'"' ∷ [])))
  nested_object : (s : Bytes) → IsNested s → IsNested (b'{' ∷ (s ++ (b'}' ∷ [])))
  nested_array : (s : Bytes) → IsNested s → IsNested (b'[' ∷ (s ++ (b']' ∷ [])))
  nested_append : (s t : Bytes) → IsNested s → IsNested t → IsNested (s ++ t)

IsNested-Glides : (s : Bytes) → IsNested s → Glides s
IsNested-Glides _ IsNested.nested_nothing = Glides-nil
IsNested-Glides _ (IsNested.nested_bytes s h) = quiet-Glides s h
IsNested-Glides _ (IsNested.nested_string s h) = string-Glides s [] h Glides-nil
IsNested-Glides _ (IsNested.nested_object s h) =
    enclosed-Glides b'{' b'}' s refl refl (IsNested-Glides s h)
IsNested-Glides _ (IsNested.nested_array s h) =
    enclosed-Glides b'[' b']' s refl refl (IsNested-Glides s h)
IsNested-Glides _ (IsNested.nested_append s t hs ht) =
    Glides-append s t (IsNested-Glides s hs) (IsNested-Glides t ht)

-- A message whose payload is an object, in which every string, object and array that begins also ends and no
-- string has quotes or backslashes in it, is parsed into its type and its whole payload.
pub protocol_parse_msg-protocol_serialize_msg :
    (type : MsgType) (inner : Bytes)
    → IsNested inner
    → protocol_parse_msg (protocol_serialize_msg type (some (b'{' ∷ (inner ++ (b'}' ∷ [])))))
      ≡ (pos (number_of type), some (b'{' ∷ (inner ++ (b'}' ∷ []))))
protocol_parse_msg-protocol_serialize_msg type inner h =
    ap protocol_parse_msg (serialized-message type (braced inner))
    ∙ protocol_parse_msg-message type (braced inner) (codes "}\n")
        (braced-IsPayload inner (IsNested-Glides inner h))
