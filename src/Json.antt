-- ===== src/Json.antt =====
-- The helpers of src/protocol.c that print and read JSON by hand. A pointer into a text is the rest
-- of the text from there on.
pub mod Search
pub mod Escape
pub mod Fields
pub mod Fetch
pub mod Avoid
pub mod Braces
pub mod Nested
use mini_coin_slovak.Base.{
  ℕ, zero, suc, ◌+◌, ◌-◌, ◌%◌, ◌^◌, Bool, true, false, ◌&&◌, ◌||◌, Option, none, some, [], ◌∷◌,
  ◌++◌, ltb, ◌==◌, if◌then◌else◌,
}
use mini_coin_slovak.Base.Int.{ℤ, pos, negsuc}
use mini_coin_slovak.CLib.{Bytes, snprintf, strstr, strchr, strtoull, strtol}

-- The loop of `json_escape` with `j` bytes written so far, into `dst_size` bytes.
unfoldable pub escape_from : Bytes → ℕ → ℕ → Bytes
escape_from [] j dst_size = []
escape_from (c ∷ src) j dst_size = elim (ltb j (dst_size - 2)) [
  | false ↦ []
  | true ↦ elim (c == b'"' || c == b'\\') [
    | true ↦ b'\\' ∷ c ∷ escape_from src (j + 2) dst_size
    | false ↦ c ∷ escape_from src (j + 1) dst_size
  ]
]

unfoldable pub json_escape : Bytes → ℕ → Bytes
json_escape src dst_size = escape_from src 0 dst_size

-- `while (*p == ' ' || *p == '\t') p++;`
unfoldable pub skip_blanks : Bytes → Bytes
skip_blanks [] = []
skip_blanks (c ∷ p) = let rest = skip_blanks p in if c == b' ' || c == b'\t' then rest else c ∷ p

-- What `json_find_key` looks for: the key in quotes, and what stands between it and its value.
abbrev pub search_text : Bytes → Bytes → Bytes
search_text key colon =
    (snprintf 128 (record { text = []; offset = 0 }) (b'"' ∷ (key ++ (b'"' ∷ colon)))).text

-- Behind the first colon of what was found.
unfoldable pub after_colon : Option Bytes → Option Bytes
unfolding skip_blanks
after_colon none = none
after_colon (some p) = elim (strchr p b':') [
  | none ↦ none
  | some [] ↦ none
  | some (c ∷ value) ↦ some (skip_blanks value)
]

unfoldable pub json_find_key : Bytes → Bytes → Option Bytes
json_find_key json key = elim (strstr json (search_text key (b':' ∷ []))) [
  | some p ↦ after_colon (some p)
  | none ↦ after_colon (strstr json (search_text key (b' ' ∷ b':' ∷ [])))
]

-- The loop of `json_get_string` with `i` bytes stored so far, into `out_size` bytes.
unfoldable pub read_string : Bytes → ℕ → ℕ → Bytes
read_string [] i out_size = []
read_string (c ∷ []) i out_size =
    if c == b'"' then [] else if ltb i (out_size - 1) then c ∷ [] else []
read_string (c ∷ d ∷ p) i out_size = elim (c == b'"') [
  | true ↦ []
  | false ↦ elim (ltb i (out_size - 1)) [
    | false ↦ []
    | true ↦ elim (c == b'\\') [
      | true ↦ d ∷ read_string p (i + 1) out_size
      | false ↦ c ∷ read_string (d ∷ p) (i + 1) out_size
    ]
  ]
]

-- `none` is the result -1.
unfoldable pub string_at : Option Bytes → ℕ → Option Bytes
string_at none out_size = none
string_at (some []) out_size = none
string_at (some (c ∷ p)) out_size = if c == b'"' then some (read_string p 0 out_size) else none

unfoldable pub json_get_string : Bytes → Bytes → ℕ → Option Bytes
json_get_string json key out_size = string_at (json_find_key json key) out_size

unfoldable pub json_get_uint64 : Bytes → Bytes → Option ℕ
json_get_uint64 json key = elim (json_find_key json key) [
  | none ↦ none
  | some p ↦ some (strtoull p)
]

-- The value of 32 bits as an `int`.
abbrev pub signed32 : ℕ → ℤ
signed32 w = if ltb w (2 ^ 31) then pos w else negsuc (2 ^ 32 - w - 1)

-- `(int)` of a `long`: the low 32 bits, as two's complement.
abbrev pub to_int : ℤ → ℤ
to_int (pos n) = signed32 (n % 2 ^ 32)
to_int (negsuc n) = signed32 (2 ^ 32 - 1 - n % 2 ^ 32)

unfoldable pub json_get_int : Bytes → Bytes → Option ℤ
json_get_int json key = elim (json_find_key json key) [
  | none ↦ none
  | some p ↦ some (to_int (strtol p))
]

-- The scan for the end of an object, which counts braces wherever they stand: the object, and the
-- text behind it.
unfoldable pub scan_object : Bytes → ℕ → Bytes × Bytes
scan_object [] depth = ([], [])
scan_object (c ∷ p) depth =
    let depth' = if c == b'{' then depth + 1 else if c == b'}' then depth - 1 else depth in
    elim (ltb 0 depth') [
      | true ↦ let (object, rest) = scan_object p depth' in (c ∷ object, rest)
      | false ↦ (c ∷ [], p)
    ]
