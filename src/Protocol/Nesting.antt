-- ===== src/Protocol/Nesting.antt =====
-- The end of a payload (`protocol_parse_msg` of src/protocol.c) with objects and arrays in it.
use mini_coin_slovak.Base.{
  ℕ, suc, ◌≡◌, refl, sym, ap, subst, ◌∙◌, Bool, true, false, ◌||◌, not, List, [], ◌∷◌, ◌++◌, arith,
  ◌==◌, All, append_assoc,
}
use mini_coin_slovak.CLib.{Bytes, decimal, IsDigits, decimal-IsDigits}
use mini_coin_slovak.Json.Escape.{escaped-plain}
use mini_coin_slovak.Json.Fields.{Value, text, number, put_value, put_fields}
use mini_coin_slovak.Json.Search.{quoted}
use mini_coin_slovak.Message.{scan_payload}
use mini_coin_slovak.Protocol.Payload.{IsPlainText, IsPlainField, last, key_plain}

last-append : (s t : Bytes) (prev : ℕ) → last prev (s ++ t) ≡ last (last prev s) t
last-append [] t prev = refl
last-append (c ∷ s) t prev = last-append s t c

abbrev IsOther : ℕ → Type 0
IsOther c = (c == b'\\') ≡ false

-- Inside of an object and outside of strings, the scan goes over the text, and is there again behind it.
abbrev pub Glides : Bytes → Type 0
Glides s =
    (depth prev : ℕ) (r : Bytes)
    → IsOther prev
    → (scan_payload (s ++ r) prev (suc depth) false
        ≡ s ++ scan_payload r (last prev s) (suc depth) false)
      × IsOther (last prev s)

pub Glides-nil : Glides []
Glides-nil depth prev r h = (refl, h)

pub Glides-append : (s t : Bytes) → Glides s → Glides t → Glides (s ++ t)
Glides-append s t hs ht depth prev r h =
    let (first, other) = hs depth prev (t ++ r) h in
    let (second, other') = ht depth (last prev s) r other in
    let behind = sym (last-append s t prev) in
    (
      ap (λ x. scan_payload x prev (suc depth) false) (append_assoc s t r)
          ∙ first
          ∙ ap (λ x. s ++ x) second
          ∙ sym (append_assoc s t (scan_payload r (last (last prev s) t) (suc depth) false))
          ∙ ap (λ p. (s ++ t) ++ scan_payload r p (suc depth) false) behind,
      subst IsOther behind other',
    )

-- A byte that neither opens nor closes anything.
abbrev pub is_quiet : ℕ → Bool
is_quiet c = not (c == b'"' || c == b'\\' || c == b'{' || c == b'}' || c == b'[' || c == b']')

pub quiet-Glides : (s : Bytes) → All (λ c. is_quiet c ≡ true) s → Glides s
unfolding scan_payload
quiet-Glides [] h depth prev r other = (refl, other)
quiet-Glides (c ∷ s) (hc, hs) depth prev r other =
    let (rest, other') = quiet-Glides s hs depth c r (ground arith) in
    (ground (arith, rest), other')

scan_string :
    (s r : Bytes) (prev depth : ℕ)
    → IsPlainText s
    → IsOther prev
    → scan_payload (s ++ (b'"' ∷ r)) prev (suc depth) true
      ≡ s ++ (b'"' ∷ scan_payload r b'"' (suc depth) false)
unfolding scan_payload
scan_string [] r prev depth h hp = ground arith
scan_string (c ∷ s) r prev depth h hp = ground (arith, scan_string s r c depth h.1)

-- A string, and what stands behind it.
pub string-Glides : (s t : Bytes) → IsPlainText s → Glides t → Glides (b'"' ∷ (s ++ (b'"' ∷ t)))
unfolding scan_payload
string-Glides s t h ht depth prev r other =
    let (rest, other') = ht depth b'"' r refl in
    let opens : scan_payload (b'"' ∷ ((s ++ (b'"' ∷ t)) ++ r)) prev (suc depth) false
        ≡ b'"' ∷ scan_payload ((s ++ (b'"' ∷ t)) ++ r) b'"' (suc depth) true =
      ground arith in
    let behind = sym (last-append s (b'"' ∷ t) b'"') in
    (
      opens
          ∙ ap (λ x. b'"' ∷ scan_payload x b'"' (suc depth) true) (append_assoc s (b'"' ∷ t) r)
          ∙ ap (◌∷◌ b'"')
              (scan_string s (t ++ r) b'"' depth h refl ∙ ap (λ x. s ++ (b'"' ∷ x)) rest)
          ∙ ap (◌∷◌ b'"')
              (sym (append_assoc s (b'"' ∷ t) (scan_payload r (last b'"' t) (suc depth) false)))
          ∙ ap (λ p. b'"' ∷ ((s ++ (b'"' ∷ t)) ++ scan_payload r p (suc depth) false)) behind,
      subst IsOther behind other',
    )

-- An object or an array.
pub enclosed-Glides :
    (o c : ℕ) (s : Bytes)
    → (o == b'{' || o == b'[') ≡ true
    → (c == b'}' || c == b']') ≡ true
    → Glides s
    → Glides (o ∷ (s ++ (c ∷ [])))
unfolding scan_payload
enclosed-Glides o c s ho hc hs depth prev r other =
    let (inner, other') = hs (suc depth) o (c ∷ r) (ground arith) in
    let opens : scan_payload (o ∷ ((s ++ (c ∷ [])) ++ r)) prev (suc depth) false
        ≡ o ∷ scan_payload ((s ++ (c ∷ [])) ++ r) o (suc (suc depth)) false =
      ground arith in
    let closes : scan_payload (c ∷ r) (last o s) (suc (suc depth)) false
        ≡ c ∷ scan_payload r c (suc depth) false =
      ground arith in
    let behind = sym (last-append s (c ∷ []) o) in
    (
      opens
          ∙ ap (λ x. o ∷ scan_payload x o (suc (suc depth)) false) (append_assoc s (c ∷ []) r)
          ∙ ap (◌∷◌ o) (inner ∙ ap (λ x. s ++ x) closes)
          ∙ ap (◌∷◌ o) (sym (append_assoc s (c ∷ []) (scan_payload r c (suc depth) false)))
          ∙ ap (λ p. o ∷ ((s ++ (c ∷ [])) ++ scan_payload r p (suc depth) false)) behind,
      subst IsOther behind (ground arith),
    )

-- The payload ends with the object.
pub scan_payload-braced :
    (s r : Bytes)
    → Glides s
    → scan_payload ((b'{' ∷ (s ++ (b'}' ∷ []))) ++ r) 0 0 false ≡ b'{' ∷ (s ++ (b'}' ∷ []))
unfolding scan_payload
scan_payload-braced s r h =
    let (inner, other) = h 0 b'{' (b'}' ∷ r) refl in
    let closes : scan_payload (b'}' ∷ r) (last b'{' s) 1 false ≡ b'}' ∷ [] = ground arith in
    ap (λ x. b'{' ∷ scan_payload x b'{' 1 false) (append_assoc s (b'}' ∷ []) r)
    ∙ ap (◌∷◌ b'{') (inner ∙ ap (λ x. s ++ x) closes)

digits-quiet : (s : Bytes) → IsDigits s → All (λ c. is_quiet c ≡ true) s
digits-quiet [] h = tt
digits-quiet (c ∷ s) (hc, hs) = (ground arith, digits-quiet s hs)

value-Glides :
    (k : Bytes) (v : Value) (t : Bytes) → IsPlainField (k, v) → Glides t → Glides (put_value v t)
value-Glides k (text s) t h ht = rw (escaped-plain s h.1) (string-Glides s t h.1 ht)
value-Glides k (number n) t h ht =
    Glides-append (decimal n) t
      (quiet-Glides (decimal n) (digits-quiet (decimal n) (decimal-IsDigits n))) ht

pub quoted-Glides : (k t : Bytes) → IsPlainText k → Glides t → Glides (quoted k t)
quoted-Glides k t h ht =
    string-Glides k (b':' ∷ t) h
      (Glides-append (b':' ∷ []) t (quiet-Glides (b':' ∷ []) (refl, tt)) ht)

-- Fields behind the first byte of an object, and what stands behind them.
pub fields-Glides :
    (k : Bytes) (v : Value) (fs : List (Bytes × Value)) (t : Bytes)
    → All IsPlainField ((k, v) ∷ fs)
    → Glides t
    → Glides (quoted k (put_value v (put_fields b',' fs t)))
fields-Glides k v [] t (hf, hs) ht =
    quoted-Glides k (put_value v t) (key_plain k hf.0) (value-Glides k v t hf ht)
fields-Glides k v ((k', v') ∷ fs) t (hf, hs) ht =
    let later = put_fields b',' ((k', v') ∷ fs) t in
    quoted-Glides k (put_value v later) (key_plain k hf.0) (
      value-Glides k v later hf (
        Glides-append (b',' ∷ []) (quoted k' (put_value v' (put_fields b',' fs t)))
          (quiet-Glides (b',' ∷ []) (refl, tt)) (fields-Glides k' v' fs t hs ht)))
