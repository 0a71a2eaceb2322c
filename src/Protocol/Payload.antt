-- ===== src/Protocol/Payload.antt =====
-- The end of a payload (`protocol_parse_msg` of src/protocol.c): of a printed object whose texts have
-- neither quotes nor backslashes it is the closing brace.
use mini_coin_slovak.Base.{
  ℕ, ◌≡◌, refl, ap, ◌∙◌, true, false, ◌||◌, List, [], ◌∷◌, ◌++◌, arith, ◌==◌, All,
}
use mini_coin_slovak.CLib.{Bytes, decimal, IsDigits, decimal-IsDigits}
use mini_coin_slovak.Json.Search.{IsKeyText, is_special, quoted}
use mini_coin_slovak.Json.Escape.{escaped-plain}
use mini_coin_slovak.Json.Fields.{Value, text, number, put_value, put_fields, Ends, put_fields-Ends}
use mini_coin_slovak.Message.{scan_payload}

abbrev pub IsPlainText : Bytes → Type 0
IsPlainText = All (λ c. is_special c ≡ false)

-- Inside of a string.
scan_string :
    (s r : Bytes) (prev : ℕ)
    → IsPlainText s
    → (prev == b'\\') ≡ false
    → scan_payload (s ++ (b'"' ∷ r)) prev 1 true ≡ s ++ (b'"' ∷ scan_payload r b'"' 1 false)
unfolding scan_payload
scan_string [] r prev h hp = ground arith
scan_string (c ∷ s) r prev h hp = ground (arith, scan_string s r c h.1)

abbrev pub last : ℕ → Bytes → ℕ
last prev [] = prev
last prev (d ∷ ds) = last d ds

scan_number :
    (ds r : Bytes) (c prev : ℕ)
    → IsDigits ds
    → scan_payload (ds ++ (c ∷ r)) prev 1 false ≡ ds ++ scan_payload (c ∷ r) (last prev ds) 1 false
unfolding scan_payload
scan_number [] r c prev h = refl
scan_number (d ∷ ds) r c prev h = ground (arith, scan_number ds r c d h.1)

-- A quote outside of a string opens one.
scan_quote :
    (t : Bytes) (prev : ℕ)
    → (prev == b'\\') ≡ false
    → scan_payload (b'"' ∷ t) prev 1 false ≡ b'"' ∷ scan_payload t b'"' 1 true
unfolding scan_payload
scan_quote t prev h = ground arith

scan_separator :
    (c : ℕ) (t : Bytes) (prev : ℕ)
    → (c == b',' || c == b':') ≡ true
    → scan_payload (c ∷ t) prev 1 false ≡ c ∷ scan_payload t c 1 false
unfolding scan_payload
scan_separator c t prev h = ground arith

-- What may stand behind a value is read in the same way whatever the byte before it was.
scan_end : (t : Bytes) (prev : ℕ) → Ends t → scan_payload t prev 1 false ≡ scan_payload t 0 1 false
unfolding scan_payload
scan_end [] prev h = absurd h
scan_end (c ∷ t) prev h = ground arith

-- A value without quotes and backslashes.
abbrev pub IsPlainValue : Value → Type 0
IsPlainValue (text s) = IsPlainText s
IsPlainValue (number n) = Unit

scan_text :
    (s t : Bytes) (prev : ℕ)
    → IsPlainText s
    → (prev == b'\\') ≡ false
    → scan_payload (b'"' ∷ (s ++ (b'"' ∷ t))) prev 1 false
      ≡ b'"' ∷ (s ++ (b'"' ∷ scan_payload t b'"' 1 false))
scan_text s t prev h hp =
    scan_quote (s ++ (b'"' ∷ t)) prev hp ∙ ap (λ r. b'"' ∷ r) (scan_string s t b'"' h refl)

scan_value :
    (v : Value) (t : Bytes) (prev : ℕ)
    → IsPlainValue v
    → Ends t
    → (prev == b'\\') ≡ false
    → scan_payload (put_value v t) prev 1 false ≡ put_value v (scan_payload t 0 1 false)
scan_value v [] prev h he hp = absurd he
scan_value (text s) (c ∷ r) prev h he hp =
    rw (escaped-plain s h) (
      scan_text s (c ∷ r) prev h hp ∙ ap (λ u. b'"' ∷ (s ++ (b'"' ∷ u))) (scan_end (c ∷ r) b'"' he))
scan_value (number n) (c ∷ r) prev h he hp =
    scan_number (decimal n) r c prev (decimal-IsDigits n)
    ∙ ap (λ u. decimal n ++ u) (scan_end (c ∷ r) (last prev (decimal n)) he)

pub key_plain : (k : Bytes) → IsKeyText k → IsPlainText k
key_plain [] h = tt
key_plain (c ∷ k) (hc, hk) = (ground arith, key_plain k hk)

abbrev pub IsPlainField : Bytes × Value → Type 0
IsPlainField (k, v) = IsKeyText k × IsPlainValue v

scan_field :
    (k : Bytes) (v : Value) (t : Bytes) (prev : ℕ)
    → IsPlainField (k, v)
    → Ends t
    → (prev == b'\\') ≡ false
    → scan_payload (quoted k (put_value v t)) prev 1 false
      ≡ quoted k (put_value v (scan_payload t 0 1 false))
scan_field k v t prev (hk, hv) he hp =
    scan_text k (b':' ∷ put_value v t) prev (key_plain k hk) hp
    ∙ ap (λ u. b'"' ∷ (k ++ (b'"' ∷ u)))
        (scan_separator b':' (put_value v t) b'"' refl
          ∙ ap (λ u. b':' ∷ u) (scan_value v t b':' hv he refl))

scan_fields :
    (fs : List (Bytes × Value)) (r : Bytes)
    → All IsPlainField fs
    → scan_payload (put_fields b',' fs (b'}' ∷ r)) 0 1 false ≡ put_fields b',' fs (b'}' ∷ [])
unfolding scan_payload
scan_fields [] r h = refl
scan_fields ((k, v) ∷ fs) r (hf, hs) =
    let t = put_fields b',' fs (b'}' ∷ r) in
    scan_separator b',' (quoted k (put_value v t)) 0 refl
    ∙ ap (λ u. b',' ∷ u)
        (scan_field k v t b',' hf (put_fields-Ends fs (b'}' ∷ r) refl) refl
          ∙ ap (λ u. quoted k (put_value v u)) (scan_fields fs r hs))

-- The payload ends with the object.
pub scan_payload-fields :
    (k : Bytes) (v : Value) (fs : List (Bytes × Value)) (r : Bytes)
    → All IsPlainField ((k, v) ∷ fs)
    → scan_payload (put_fields b'{' ((k, v) ∷ fs) (b'}' ∷ r)) 0 0 false
      ≡ put_fields b'{' ((k, v) ∷ fs) (b'}' ∷ [])
unfolding scan_payload
scan_payload-fields k v fs r (hf, hs) =
    let t = put_fields b',' fs (b'}' ∷ r) in
    ap (λ u. b'{' ∷ u)
      (scan_field k v t b'{' hf (put_fields-Ends fs (b'}' ∷ r) refl) refl
        ∙ ap (λ u. quoted k (put_value v u)) (scan_fields fs r hs))
