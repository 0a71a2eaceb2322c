-- ===== src/Json/Avoid.antt =====
-- Which bytes are in printed objects: a set of bytes that no text in one contains, and that has no
-- digits, letters of keys and marks of JSON, is not in its print.
use mini_coin_slovak.Base.{
  ℕ, ◌≡◌, Bool, true, false, List, [], ◌∷◌, ◌++◌, All, Bool-cases, inl, inr,
}
use mini_coin_slovak.CLib.{Bytes, decimal, is_digit, IsDigits, decimal-IsDigits}
use mini_coin_slovak.Json.Search.{IsKeyText, is_key_char, is_special, escaped, quoted}
use mini_coin_slovak.Json.Fields.{Value, text, number, put_value, put_fields}

-- No byte that is `bad`.
abbrev pub Avoids : (ℕ → Bool) → Bytes → Type 0
Avoids bad = All (λ c. bad c ≡ false)

pub Avoids-append :
    (bad : ℕ → Bool) (s t : Bytes) → Avoids bad s → Avoids bad t → Avoids bad (s ++ t)
Avoids-append bad [] t hs ht = ht
Avoids-append bad (c ∷ s) t (hc, hs) ht = (hc, Avoids-append bad s t hs ht)

-- What printing adds of its own is not `bad`.
pub record IsHarmless (bad : ℕ → Bool) : Type 0 where
  pub marks : Avoids bad (b'"' ∷ b',' ∷ b':' ∷ b'\\' ∷ [])
  pub digit : (d : ℕ) → is_digit d ≡ true → bad d ≡ false
  pub key_char : (c : ℕ) → is_key_char c ≡ true → bad c ≡ false

abbrev pub IsAvoiding : (ℕ → Bool) → Bytes × Value → Type 0
IsAvoiding bad (k, text s) = IsKeyText k × Avoids bad s
IsAvoiding bad (k, number n) = IsKeyText k

module _ (bad : ℕ → Bool) (fine : IsHarmless bad) where
  escaped-Avoids : (s : Bytes) → Avoids bad s → Avoids bad (escaped s)
  escaped-Avoids [] h = tt
  escaped-Avoids (c ∷ s) (hc, hs) = elim (Bool-cases (is_special c)) [
    | inl special ↦ rw special (fine.marks.1.1.1.0, (hc, escaped-Avoids s hs))
    | inr plain ↦ rw plain (hc, escaped-Avoids s hs)
  ]

  digits-Avoids : (s : Bytes) → IsDigits s → Avoids bad s
  digits-Avoids [] h = tt
  digits-Avoids (c ∷ s) (hc, hs) = (fine.digit c hc, digits-Avoids s hs)

  key-Avoids : (s : Bytes) → IsKeyText s → Avoids bad s
  key-Avoids [] h = tt
  key-Avoids (c ∷ s) (hc, hs) = (fine.key_char c hc, key-Avoids s hs)

  value-Avoids :
      (k : Bytes) (v : Value) (t : Bytes)
      → IsAvoiding bad (k, v)
      → Avoids bad t
      → Avoids bad (put_value v t)
  value-Avoids k (text s) t h ht = (
    fine.marks.0,
    Avoids-append bad (escaped s) (b'"' ∷ t) (escaped-Avoids s h.1) (fine.marks.0, ht),
  )
  value-Avoids k (number n) t h ht =
      Avoids-append bad (decimal n) t (digits-Avoids (decimal n) (decimal-IsDigits n)) ht

  key_of : (f : Bytes × Value) → IsAvoiding bad f → IsKeyText f.0
  key_of (k, text s) h = h.0
  key_of (k, number n) h = h

  pub quoted-Avoids : (k t : Bytes) → IsKeyText k → Avoids bad t → Avoids bad (quoted k t)
  quoted-Avoids k t hk ht = (
    fine.marks.0,
    Avoids-append bad k (b'"' ∷ b':' ∷ t) (key-Avoids k hk) (fine.marks.0, (fine.marks.1.1.0, ht)),
  )

  pub fields-Avoids :
      (sep : ℕ) (fs : List (Bytes × Value)) (rest : Bytes)
      → bad sep ≡ false
      → All (IsAvoiding bad) fs
      → Avoids bad rest
      → Avoids bad (put_fields sep fs rest)
  fields-Avoids sep [] rest hsep h hr = hr
  fields-Avoids sep ((k, v) ∷ fs) rest hsep (hf, hs) hr =
      let later = fields-Avoids b',' fs rest fine.marks.1.0 hs hr in
      (
        hsep,
        quoted-Avoids k (put_value v (put_fields b',' fs rest)) (key_of (k, v) hf)
            (value-Avoids k v (put_fields b',' fs rest) hf later),
      )
