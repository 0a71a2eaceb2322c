-- ===== src/Net/OneLine.antt =====
-- Messages on one line: what src/protocol.c prints has a newline at its end alone, so `read_message` of
-- src/net.c reads it whole.
use mini_coin_slovak.Base.{
  ℕ, ◌<◌, ◌≡◌, refl, ap, ◌∙◌, Bool, ◌||◌, some, [], ◌∷◌, ◌++◌, arith, All, length, length-append,
  ◌==◌, append_assoc,
}
use mini_coin_slovak.CLib.{Bytes, codes, length-decimal-le}
use mini_coin_slovak.Json.Avoid.{
  Avoids-append, IsHarmless, IsAvoiding, quoted-Avoids, fields-Avoids,
}
use mini_coin_slovak.Json.Fields.{number}
use mini_coin_slovak.Json.Search.{quoted}
use mini_coin_slovak.Net.{read_message}
use mini_coin_slovak.Net.Lines.{IsLine, read_message-line}
use mini_coin_slovak.Message.{MsgType, number_of, protocol_serialize_msg}
use mini_coin_slovak.Protocol.{protocol_serialize_tx}
use mini_coin_slovak.Protocol.Messages.{message, message-append, serialized-message, IsClean}
use mini_coin_slovak.Protocol.Txs.{tx_fields, serialized-fields}
use mini_coin_slovak.Tx.{Tx}

-- A newline or a NUL byte.
abbrev pub is_break : ℕ → Bool
is_break c = c == b'\n' || c == 0

is_break-IsHarmless : IsHarmless is_break
is_break-IsHarmless = record {
  marks = search;
  digit = λ d h. ground arith;
  key_char = λ c h. ground arith;
}

-- The texts of the transaction are on one line.
pub record IsOneLine (tx : Tx) : Type 0 where
  pub sender_line : IsLine tx.sender
  pub receiver_line : IsLine tx.receiver
  pub signature_line : IsLine tx.signature
  pub hash_line : IsLine tx.tx_hash

module _ (type : MsgType) (p : Bytes) where
  message-IsLine : IsLine p → IsLine (message type p (codes "}"))
  message-IsLine h =
      fields-Avoids is_break is_break-IsHarmless b'{' ((codes "type", number (number_of type)) ∷ [])
        (b',' ∷ quoted (codes "payload") (p ++ codes "}")) refl (search)
        (
          refl,
          quoted-Avoids is_break is_break-IsHarmless (codes "payload") (p ++ codes "}") (search)
              (Avoids-append is_break p (codes "}") h (refl, tt)),
        )

  length-message-lt : length p < 1048000 → length (message type p (codes "}")) < 1048575
  length-message-lt h = simp length-append (omega (arith, length-decimal-le (number_of type)))

  -- A message on one line is read from the socket whole, and nothing behind it.
  pub read_message-message :
      (rest : Bytes)
      → IsLine p
      → length p < 1048000
      → read_message (protocol_serialize_msg type (some p) ++ rest)
        ≡ some (message type p (codes "}"), rest)
  read_message-message rest h fits =
      ap (λ s. read_message (s ++ rest)) (serialized-message type p)
      ∙ ap (λ s. read_message (s ++ rest)) (message-append type p (codes "}") (b'\n' ∷ []))
      ∙ ap read_message (append_assoc (message type p (codes "}")) (b'\n' ∷ []) rest)
      ∙ read_message-line (message type p (codes "}")) rest (message-IsLine h)
          (length-message-lt fits)

module _ (tx : Tx) (clean : IsClean tx) (lines : IsOneLine tx) where
  fields-IsAvoiding : All (IsAvoiding is_break) (tx_fields tx)
  fields-IsAvoiding = (
    (search, lines.sender_line),
    (
      (search, lines.receiver_line),
      (search, (search, ((search, lines.signature_line), ((search, lines.hash_line), tt)))),
    ),
  )

  pub serialized-IsLine : IsLine (protocol_serialize_tx tx)
  serialized-IsLine = rw (serialized-fields tx clean.sendable) (
      fields-Avoids is_break is_break-IsHarmless b'{' (tx_fields tx) (b'}' ∷ []) refl
        fields-IsAvoiding (refl, tt))
