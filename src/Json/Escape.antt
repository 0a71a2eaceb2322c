-- ===== src/Json/Escape.antt =====
-- Strings in JSON (`json_escape` and `json_get_string` of src/protocol.c): what was escaped is read
-- back.
use mini_coin_slovak.Base.{
  ℕ, ◌+◌, ◌-◌, ◌*◌, ◌≤◌, ◌<◌, ◌≡◌, refl, false, [], ◌∷◌, ◌++◌, arith, length, All,
}
use mini_coin_slovak.CLib.{Bytes}
use mini_coin_slovak.Json.{escape_from, json_escape, read_string}
use mini_coin_slovak.Json.Search.{is_special, escaped}

escape_from-escaped :
    (s : Bytes) (j size : ℕ) → j + 2 * length s + 2 ≤ size → escape_from s j size ≡ escaped s
unfolding escape_from
escape_from-escaped [] j size h = refl
escape_from-escaped (c ∷ s) j size h = ground (
  arith,
  escape_from-escaped s (j + 2) size (omega arith),
  escape_from-escaped s (j + 1) size (omega arith),
)

-- With room for two bytes per character and two more, the whole text is escaped.
pub json_escape-escaped :
    (s : Bytes) (size : ℕ) → 2 * length s + 2 ≤ size → json_escape s size ≡ escaped s
unfolding json_escape
json_escape-escaped s size h = escape_from-escaped s 0 size (omega arith)

-- A text without quotes and backslashes stays as it is.
pub escaped-plain : (s : Bytes) → All (λ c. is_special c ≡ false) s → escaped s ≡ s
escaped-plain [] h = refl
escaped-plain (c ∷ s) (hc, hs) = ground (arith, hc, escaped-plain s hs)

read_string-plain :
    (x : ℕ) (t r : Bytes) (i size : ℕ)
    → is_special x ≡ false
    → i < size - 1
    → read_string (x ∷ (t ++ (b'"' ∷ r))) i size ≡ x ∷ read_string (t ++ (b'"' ∷ r)) (i + 1) size
unfolding read_string
read_string-plain x [] r i size hx h = ground arith
read_string-plain x (y ∷ t) r i size hx h = ground arith

read_string-special :
    (x : ℕ) (p : Bytes) (i size : ℕ)
    → i < size - 1
    → read_string (b'\\' ∷ x ∷ p) i size ≡ x ∷ read_string p (i + 1) size
unfolding read_string
read_string-special x p i size h = ground arith

-- Reading stops at the quote that closes the string.
pub read_string-escaped :
    (s : Bytes) (c : ℕ) (r : Bytes) (i size : ℕ)
    → i + length s < size
    → read_string (escaped s ++ (b'"' ∷ c ∷ r)) i size ≡ s
unfolding read_string
read_string-escaped [] c r i size h = ground arith
read_string-escaped (x ∷ s) c r i size h = ground (
  arith,
  read_string-special x (escaped s ++ (b'"' ∷ c ∷ r)) i size (omega arith),
  read_string-plain x (escaped s) (c ∷ r) i size,
  read_string-escaped s c r (i + 1) size (omega arith),
)

length-escape_from-le : (s : Bytes) (j size : ℕ) → length (escape_from s j size) ≤ 2 * length s
unfolding escape_from
length-escape_from-le [] j size = omega arith
length-escape_from-le (c ∷ s) j size =
    ground (arith, length-escape_from-le s (j + 2) size, length-escape_from-le s (j + 1) size)

pub length-json_escape-le : (s : Bytes) (size : ℕ) → length (json_escape s size) ≤ 2 * length s
unfolding json_escape
length-json_escape-le s size = length-escape_from-le s 0 size
