-- ===== src/Json/Braces.antt =====
-- Finding the end of a printed object by counting braces, as `protocol_deserialize_block` and
-- `protocol_deserialize_chain` of src/protocol.c do: right where no text in it has braces.
use mini_coin_slovak.Base.{
  ℕ, ◌≡◌, refl, sym, ap, ◌∙◌, Bool, ◌||◌, List, [], ◌∷◌, ◌++◌, arith, ◌==◌, All, append_assoc,
}
use mini_coin_slovak.CLib.{Bytes, decimal}
use mini_coin_slovak.Json.{scan_object}
use mini_coin_slovak.Json.Avoid.{Avoids, IsHarmless, IsAvoiding, fields-Avoids}
use mini_coin_slovak.Json.Search.{escaped, quoted}
use mini_coin_slovak.Json.Fields.{Value, text, number, put_value, put_fields}

abbrev pub is_brace : ℕ → Bool
is_brace c = c == b'{' || c == b'}'

abbrev pub HasNoBraces : Bytes → Type 0
HasNoBraces = Avoids is_brace

abbrev pub IsBraceless : Bytes × Value → Type 0
IsBraceless = IsAvoiding is_brace

pub is_brace-IsHarmless : IsHarmless is_brace
is_brace-IsHarmless = record {
  marks = search;
  digit = λ d h. ground arith;
  key_char = λ c h. ground arith;
}

scan_inside :
    (s r : Bytes) → HasNoBraces s → scan_object (s ++ (b'}' ∷ r)) 1 ≡ (s ++ (b'}' ∷ []), r)
unfolding scan_object
scan_inside [] r h = refl
scan_inside (c ∷ s) r (hc, hs) = ground (arith, scan_inside s r hs)

put_value-append : (v : Value) (s t : Bytes) → put_value v (s ++ t) ≡ put_value v s ++ t
put_value-append (text x) s t = ap (◌∷◌ b'"') (sym (append_assoc (escaped x) (b'"' ∷ s) t))
put_value-append (number n) s t = sym (append_assoc (decimal n) s t)

pub put_fields-append :
    (sep : ℕ) (fs : List (Bytes × Value)) (t : Bytes)
    → put_fields sep fs t ≡ put_fields sep fs [] ++ t
put_fields-append sep [] t = refl
put_fields-append sep ((k, v) ∷ fs) t =
    let inner = put_fields b',' fs [] in
    ap (λ s. sep ∷ quoted k (put_value v s)) (put_fields-append b',' fs t)
    ∙ ap (λ s. sep ∷ quoted k s) (put_value-append v inner t)
    ∙ ap (λ s. sep ∷ b'"' ∷ s) (sym (append_assoc k (b'"' ∷ b':' ∷ put_value v inner) t))

-- The object, and what stands behind it.
pub put_fields-then :
    (sep : ℕ) (fs : List (Bytes × Value)) (r : Bytes)
    → put_fields sep fs (b'}' ∷ []) ++ r ≡ put_fields sep fs (b'}' ∷ r)
put_fields-then sep fs r =
    ap (λ s. s ++ r) (put_fields-append sep fs (b'}' ∷ []))
    ∙ append_assoc (put_fields sep fs []) (b'}' ∷ []) r
    ∙ sym (put_fields-append sep fs (b'}' ∷ r))

module _ (k : Bytes) (v : Value) (fs : List (Bytes × Value)) where
  abbrev pub inside : Bytes
  inside = b'"' ∷ (k ++ (b'"' ∷ b':' ∷ put_value v (put_fields b',' fs [])))

  -- The object ends at its closing brace.
  pub scan_object-fields :
      (r : Bytes)
      → All IsBraceless ((k, v) ∷ fs)
      → scan_object (put_fields b'{' ((k, v) ∷ fs) (b'}' ∷ r)) 0
        ≡ (put_fields b'{' ((k, v) ∷ fs) (b'}' ∷ []), r)
  unfolding scan_object
  scan_object-fields r h =
      let fine = (fields-Avoids is_brace is_brace-IsHarmless b',' ((k, v) ∷ fs) [] refl h tt).1 in
      ap (λ s. scan_object s 0) (put_fields-append b'{' ((k, v) ∷ fs) (b'}' ∷ r))
      ∙ ap (λ (o, t). (b'{' ∷ o, t)) (scan_inside inside r fine)
      ∙ ap (λ s. (s, r)) (sym (put_fields-append b'{' ((k, v) ∷ fs) (b'}' ∷ [])))
