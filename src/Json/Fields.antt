-- ===== src/Json/Fields.antt =====
-- Printed objects: fields in a row, and how src/protocol.c finds and reads one of them.
use mini_coin_slovak.Base.{
  ℕ, ◌≡◌, refl, ◌∙◌, true, false, Option, none, some, List, [], ◌∷◌, ◌++◌, arith, ◌==◌,
  if◌then◌else◌, All, Bool-cases, subst, inl, inr,
}
use mini_coin_slovak.CLib.{
  Bytes, decimal, strstr, strchr, str_eq, str_eq_iff, decimal-IsDigits, IsDigits,
}
use mini_coin_slovak.Json.{skip_blanks, after_colon}
use mini_coin_slovak.Json.Search.{
  IsKeyText, escaped, quoted, is_end, skip_bytes, skip_text, skip_key, find_here,
}

pub data Value : Type 0 where
  text : Bytes → Value
  number : ℕ → Value

abbrev pub put_value : Value → Bytes → Bytes
put_value (text s) rest = b'"' ∷ (escaped s ++ (b'"' ∷ rest))
put_value (number n) rest = decimal n ++ rest

-- A separator before each field, and `rest` behind the last.
abbrev pub put_fields : ℕ → List (Bytes × Value) → Bytes → Bytes
put_fields sep [] rest = rest
put_fields sep ((k, v) ∷ fs) rest = sep ∷ quoted k (put_value v (put_fields b',' fs rest))

-- The text begins with what may stand behind a value.
abbrev pub Ends : Bytes → Type 0
Ends [] = ⊥
Ends (c ∷ r) = is_end c ≡ true

pub put_fields-Ends :
    (fs : List (Bytes × Value)) (rest : Bytes) → Ends rest → Ends (put_fields b',' fs rest)
put_fields-Ends [] rest h = h
put_fields-Ends ((k, v) ∷ fs) rest h = refl

-- A key begins with a letter or an underscore.
abbrev pub IsKey : Bytes → Type 0
IsKey [] = ⊥
IsKey (c ∷ k) = IsKeyText (c ∷ k)

abbrev pub AreKeys : List (Bytes × Value) → Type 0
AreKeys = All (λ f. IsKey f.0)

-- What stands behind the key's colon.
abbrev pub tail_at : Bytes → List (Bytes × Value) → Bytes → Option Bytes
tail_at key [] rest = none
tail_at key ((k, v) ∷ fs) rest =
    let others = tail_at key fs rest in
    if str_eq key k then some (put_value v (put_fields b',' fs rest)) else others

-- Where the key is found: at its field, or else in the rest.
abbrev pub with_key : Bytes → Bytes → Option Bytes → Option Bytes
with_key key rest none = strstr rest (quoted key [])
with_key key rest (some t) = some (quoted key t)

pub keys_text : (k : Bytes) → IsKey k → IsKeyText k
keys_text [] h = absurd h
keys_text (c ∷ k) h = h

IsDigits-no_quotes : (ds : Bytes) → IsDigits ds → All (λ c. (c == b'"') ≡ false) ds
IsDigits-no_quotes [] h = tt
IsDigits-no_quotes (d ∷ ds) h = (ground arith, IsDigits-no_quotes ds h.1)

module _ (a : ℕ) (k : Bytes) (key : IsKeyText (a ∷ k)) where
  skip_value :
      (v : Value) (t : Bytes)
      → Ends t
      → strstr (put_value v t) (quoted (a ∷ k) []) ≡ strstr t (quoted (a ∷ k) [])
  skip_value v [] h = absurd h
  skip_value (text s) (c ∷ r) h = skip_text a k key s c r h
  skip_value (number n) (c ∷ r) h =
      skip_bytes a k key (decimal n) (c ∷ r) (IsDigits-no_quotes (decimal n) (decimal-IsDigits n))

  find_same :
      (j t : Bytes)
      → str_eq (a ∷ k) j ≡ true
      → strstr (quoted j t) (quoted (a ∷ k) []) ≡ some (quoted (a ∷ k) t)
  find_same j t h =
      subst (λ i. strstr (quoted i t) (quoted (a ∷ k) []) ≡ some (quoted (a ∷ k) t))
        ((str_eq_iff (a ∷ k) j).0 h) (find_here a k key t)

  pub find_behind :
      (t : Bytes) → strstr (b',' ∷ quoted (a ∷ k) t) (quoted (a ∷ k) []) ≡ some (quoted (a ∷ k) t)
  find_behind t = skip_bytes a k key (b',' ∷ []) (quoted (a ∷ k) t) (refl, tt) ∙ find_here a k key t

  -- The key is found where its field stands.
  pub find_field :
      (sep : ℕ) (fs : List (Bytes × Value)) (rest : Bytes)
      → (sep == b'"') ≡ false
      → AreKeys fs
      → Ends rest
      → strstr (put_fields sep fs rest) (quoted (a ∷ k) [])
        ≡ with_key (a ∷ k) rest (tail_at (a ∷ k) fs rest)
  find_field sep [] rest hs hk he = refl
  find_field sep ((j, v) ∷ fs) rest hs hk he =
      let t = put_fields b',' fs rest in
      skip_bytes a k key (sep ∷ []) (quoted j (put_value v t)) (hs, tt)
      ∙ elim (Bool-cases (str_eq (a ∷ k) j)) [
        | inl same ↦ rw (same) (find_same j (put_value v t) same)
        | inr other ↦ rw (other) (
            skip_key a k key j (put_value v t) (keys_text j hk.0) other
            ∙ skip_value v t (put_fields-Ends fs rest he)
            ∙ find_field b',' fs rest refl hk.1 he)
      ]

skip_blanks-digits :
    (ds : Bytes) (c : ℕ) (r : Bytes)
    → IsDigits ds
    → is_end c ≡ true
    → skip_blanks (ds ++ (c ∷ r)) ≡ ds ++ (c ∷ r)
unfolding skip_blanks
skip_blanks-digits [] c r hd hc = ground arith
skip_blanks-digits (d ∷ ds) c r hd hc = ground arith

pub skip_blanks-value :
    (v : Value) (t : Bytes) → Ends t → skip_blanks (put_value v t) ≡ put_value v t
unfolding skip_blanks
skip_blanks-value v [] h = absurd h
skip_blanks-value (text s) (c ∷ r) h = refl
skip_blanks-value (number n) (c ∷ r) h = skip_blanks-digits (decimal n) c r (decimal-IsDigits n) h

strchr-key : (k t : Bytes) → IsKeyText k → strchr (k ++ (b'"' ∷ b':' ∷ t)) b':' ≡ some (b':' ∷ t)
unfolding strchr
strchr-key [] t h = refl
strchr-key (c ∷ k) t h = ground (arith, strchr-key k t h.1)

pub after_colon-quoted :
    (k t : Bytes) → IsKeyText k → after_colon (some (quoted k t)) ≡ some (skip_blanks t)
unfolding after_colon strchr
after_colon-quoted k t h = ground (arith, strchr-key k t h)
