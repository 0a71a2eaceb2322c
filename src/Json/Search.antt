-- ===== src/Json/Search.antt =====
-- Searching printed JSON for a key (`json_find_key` of src/protocol.c): the text of a string value can
-- never be taken for a key, since every quote in it is escaped.
use mini_coin_slovak.Base.{
  ℕ, ◌≡◌, refl, ◌∙◌, Bool, true, false, ◌&&◌, ◌||◌, some, [], ◌∷◌, ◌++◌, arith, leb, ◌==◌,
  if◌then◌else◌, All,
}
use mini_coin_slovak.CLib.{Bytes, starts_with, strstr, str_eq}

-- Keys are of lower-case letters and underscores.
abbrev pub is_key_char : ℕ → Bool
is_key_char c = leb b'a' c && leb c b'z' || c == b'_'

abbrev pub IsKeyText : Bytes → Type 0
IsKeyText = All (λ c. is_key_char c ≡ true)

abbrev pub is_special : ℕ → Bool
is_special c = c == b'"' || c == b'\\'

-- A text with a backslash before each quote and each backslash.
abbrev pub escaped : Bytes → Bytes
escaped [] = []
escaped (c ∷ s) = if is_special c then b'\\' ∷ c ∷ escaped s else c ∷ escaped s

-- The key in quotes, and a colon.
abbrev pub quoted : Bytes → Bytes → Bytes
quoted k rest = b'"' ∷ (k ++ (b'"' ∷ b':' ∷ rest))

-- A comma or a closing bracket: what stands behind a value.
abbrev pub is_end : ℕ → Bool
is_end c = c == b',' || c == b'}' || c == b']'

no_match-escaped :
    (k s : Bytes) (c : ℕ) (r : Bytes)
    → IsKeyText k
    → is_end c ≡ true
    → starts_with (k ++ (b'"' ∷ b':' ∷ [])) (escaped s ++ (b'"' ∷ c ∷ r)) ≡ false
no_match-escaped [] [] c r hk hc = ground arith
no_match-escaped [] (x ∷ s) c r hk hc = ground arith
no_match-escaped (a ∷ k) [] c r hk hc = ground arith
no_match-escaped (a ∷ k) (x ∷ s) c r hk hc = ground (arith, no_match-escaped k s c r hk.1 hc)

-- Two keys that differ do not match.
no_match-key :
    (k j t : Bytes)
    → IsKeyText k
    → IsKeyText j
    → str_eq k j ≡ false
    → starts_with (k ++ (b'"' ∷ b':' ∷ [])) (j ++ (b'"' ∷ b':' ∷ t)) ≡ false
no_match-key [] [] t hk hj ne = cc
no_match-key [] (y ∷ j) t hk hj ne = ground arith
no_match-key (x ∷ k) [] t hk hj ne = ground arith
no_match-key (x ∷ k) (y ∷ j) t hk hj ne = ground (arith, no_match-key k j t hk.1 hj.1)

match-key : (k t : Bytes) → starts_with (k ++ (b'"' ∷ b':' ∷ [])) (k ++ (b'"' ∷ b':' ∷ t)) ≡ true
match-key [] t = refl
match-key (x ∷ k) t = ground (arith, match-key k t)

IsKeyText-no_quotes : (j : Bytes) → IsKeyText j → All (λ c. (c == b'"') ≡ false) j
IsKeyText-no_quotes [] h = h
IsKeyText-no_quotes (x ∷ j) (hx, hj) = (ground arith, IsKeyText-no_quotes j hj)

module _ (a : ℕ) (k : Bytes) (key : IsKeyText (a ∷ k)) where
  abbrev pat : Bytes
  pat = quoted (a ∷ k) []

  -- No byte but a quote begins a match.
  skip_byte : (c : ℕ) (s : Bytes) → (c == b'"') ≡ false → strstr (c ∷ s) pat ≡ strstr s pat
  unfolding strstr
  skip_byte c s h = ground arith

  skip_quote :
      (s : Bytes)
      → starts_with (a ∷ (k ++ (b'"' ∷ b':' ∷ []))) s ≡ false
      → strstr (b'"' ∷ s) pat ≡ strstr s pat
  unfolding strstr
  skip_quote s h = ground arith

  pub skip_bytes :
      (s rest : Bytes) → All (λ c. (c == b'"') ≡ false) s → strstr (s ++ rest) pat ≡ strstr rest pat
  skip_bytes [] rest h = refl
  skip_bytes (c ∷ s) rest (hc, hs) = skip_byte c (s ++ rest) hc ∙ skip_bytes s rest hs

  skip_escaped :
      (s : Bytes) (c : ℕ) (r : Bytes)
      → is_end c ≡ true
      → strstr (escaped s ++ (b'"' ∷ c ∷ r)) pat ≡ strstr (c ∷ r) pat
  skip_escaped [] c r hc = skip_quote (c ∷ r) (ground arith)
  skip_escaped (x ∷ s) c r hc = ground (
    arith,
    skip_escaped s c r hc,
    skip_byte x (escaped s ++ (b'"' ∷ c ∷ r)),
    skip_byte b'\\' (x ∷ (escaped s ++ (b'"' ∷ c ∷ r))) refl,
    skip_quote (escaped s ++ (b'"' ∷ c ∷ r)) (no_match-escaped (a ∷ k) s c r key hc),
  )

  -- A string value is skipped whole.
  pub skip_text :
      (s : Bytes) (c : ℕ) (r : Bytes)
      → is_end c ≡ true
      → strstr (b'"' ∷ (escaped s ++ (b'"' ∷ c ∷ r))) pat ≡ strstr (c ∷ r) pat
  skip_text s c r hc =
      skip_quote (escaped s ++ (b'"' ∷ c ∷ r)) (no_match-escaped (a ∷ k) s c r key hc)
      ∙ skip_escaped s c r hc

  -- Another key is skipped with its colon.
  pub skip_key :
      (j t : Bytes)
      → IsKeyText j
      → str_eq (a ∷ k) j ≡ false
      → strstr (quoted j t) pat ≡ strstr t pat
  skip_key j t hj ne =
      skip_quote (j ++ (b'"' ∷ b':' ∷ t)) (no_match-key (a ∷ k) j t key hj ne)
      ∙ skip_bytes j (b'"' ∷ b':' ∷ t) (IsKeyText-no_quotes j hj)
      ∙ skip_quote (b':' ∷ t) (ground arith)
      ∙ skip_byte b':' t refl

  pub find_here : (t : Bytes) → strstr (quoted (a ∷ k) t) pat ≡ some (quoted (a ∷ k) t)
  unfolding strstr
  find_here t = ground (arith, match-key (a ∷ k) t)
