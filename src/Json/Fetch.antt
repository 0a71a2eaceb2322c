-- ===== src/Json/Fetch.antt =====
-- Reading one field of a printed object (`json_find_key`, `json_get_string`, `json_get_uint64` and
-- `json_get_int` of src/protocol.c).
use mini_coin_slovak.Base.{
  ℕ, ◌%◌, ◌^◌, ◌<◌, ◌≡◌, refl, ap, ◌∙◌, true, false, none, some, List, [], ◌∷◌, arith, length, ◌==◌,
}
use mini_coin_slovak.Base.Int.{pos}
use mini_coin_slovak.CLib.{
  Bytes, strstr, strtoull, strtol, strtoull-decimal, strtol-decimal, is_plain,
}
use mini_coin_slovak.Json.{
  search_text, skip_blanks, json_find_key, json_get_string, json_get_uint64, json_get_int,
  string_at, to_int,
}
use mini_coin_slovak.Json.Search.{IsKeyText, quoted, is_end}
use mini_coin_slovak.Json.Escape.{read_string-escaped}
use mini_coin_slovak.Json.Fields.{
  Value, text, number, put_value, put_fields, IsKey, AreKeys, keys_text, tail_at, with_key, Ends,
  put_fields-Ends, find_behind, find_field, skip_blanks-value, after_colon-quoted,
}

-- The field stands in the object, with the fields `later` behind it.
abbrev pub Holds : Bytes → Value → List (Bytes × Value) → List (Bytes × Value) → Bytes → Type 0
Holds key v later fs rest = tail_at key fs rest ≡ some (put_value v (put_fields b',' later rest))

find_key :
    (key : Bytes) (sep : ℕ) (fs : List (Bytes × Value)) (rest : Bytes)
    → IsKey key
    → (sep == b'"') ≡ false
    → AreKeys fs
    → Ends rest
    → strstr (put_fields sep fs rest) (quoted key []) ≡ with_key key rest (tail_at key fs rest)
find_key [] sep fs rest hk hs hf he = absurd hk
find_key (a ∷ k) sep fs rest hk hs hf he = find_field a k hk sep fs rest hs hf he

find_first :
    (key t : Bytes) → IsKey key → strstr (b',' ∷ quoted key t) (quoted key []) ≡ some (quoted key t)
find_first [] t hk = absurd hk
find_first (a ∷ k) t hk = find_behind a k hk t

json_find_key-found :
    (json key t : Bytes)
    → search_text key (b':' ∷ []) ≡ quoted key []
    → IsKeyText key
    → strstr json (quoted key []) ≡ some (quoted key t)
    → json_find_key json key ≡ some (skip_blanks t)
unfolding json_find_key
json_find_key-found json key t hs hk found =
    rw (json_find_key, hs, found) (after_colon-quoted key t hk)

end_plain : (c : ℕ) → is_end c ≡ true → is_plain c ≡ true
end_plain c h = ground arith

string_at-text :
    (s : Bytes) (size : ℕ) (t : Bytes)
    → length s < size
    → Ends t
    → string_at (some (put_value (text s) t)) size ≡ some s
unfolding string_at
string_at-text s size [] room h = absurd h
string_at-text s size (c ∷ r) room h = ap some (read_string-escaped s c r 0 size (omega arith))

strtoull-number : (n : ℕ) (t : Bytes) → n < 2 ^ 64 → Ends t → strtoull (put_value (number n) t) ≡ n
strtoull-number n [] small h = absurd h
strtoull-number n (c ∷ r) small h = strtoull-decimal n c r small (ground arith) (end_plain c h)

strtol-number : (n : ℕ) (t : Bytes) → n < 2 ^ 63 → Ends t → strtol (put_value (number n) t) ≡ pos n
strtol-number n [] small h = absurd h
strtol-number n (c ∷ r) small h = strtol-decimal n c r small (ground arith) (end_plain c h)

to_int-small : (n : ℕ) → n < 2 ^ 31 → to_int (pos n) ≡ pos n
to_int-small n h = let same : n % 2 ^ 32 ≡ n = omega arith in ground arith

module _ (key : Bytes) (sep : ℕ) (fs later : List (Bytes × Value)) (rest : Bytes)
    (fits : search_text key (b':' ∷ []) ≡ quoted key []) (hk : IsKey key)
    (hs : (sep == b'"') ≡ false) (hf : AreKeys fs) (he : Ends rest) where
  abbrev behind : Bytes
  behind = put_fields b',' later rest

  json_find_key-field :
      (v : Value)
      → Holds key v later fs rest
      → json_find_key (put_fields sep fs rest) key ≡ some (put_value v behind)
  json_find_key-field v h =
      json_find_key-found (put_fields sep fs rest) key (put_value v behind) fits (keys_text key hk)
        (find_key key sep fs rest hk hs hf he ∙ ap (with_key key rest) h)
      ∙ ap some (skip_blanks-value v behind (put_fields-Ends later rest he))

  pub json_get_string-field :
      (s : Bytes) (size : ℕ)
      → length s < size
      → Holds key (text s) later fs rest
      → json_get_string (put_fields sep fs rest) key size ≡ some s
  unfolding json_get_string
  json_get_string-field s size room h =
      ap (λ p. string_at p size) (json_find_key-field (text s) h)
      ∙ string_at-text s size behind room (put_fields-Ends later rest he)

  pub json_get_uint64-field :
      (n : ℕ)
      → n < 2 ^ 64
      → Holds key (number n) later fs rest
      → json_get_uint64 (put_fields sep fs rest) key ≡ some n
  unfolding json_get_uint64
  json_get_uint64-field n small h =
      rw (json_get_uint64, json_find_key-field (number n) h)
        (ap some (strtoull-number n behind small (put_fields-Ends later rest he)))

  pub json_get_int-field :
      (n : ℕ)
      → n < 2 ^ 31
      → Holds key (number n) later fs rest
      → json_get_int (put_fields sep fs rest) key ≡ some (pos n)
  unfolding json_get_int
  json_get_int-field n small h =
      rw (json_get_int, json_find_key-field (number n) h)
        (ap some (
          ap to_int (strtol-number n behind (omega arith) (put_fields-Ends later rest he))
          ∙ to_int-small n small))

-- A key behind all fields, with a value that begins with no blank.
pub json_find_key-behind :
    (key : Bytes) (sep : ℕ) (fs : List (Bytes × Value)) (t : Bytes)
    → search_text key (b':' ∷ []) ≡ quoted key []
    → IsKey key
    → (sep == b'"') ≡ false
    → AreKeys fs
    → tail_at key fs (b',' ∷ quoted key t) ≡ none
    → skip_blanks t ≡ t
    → json_find_key (put_fields sep fs (b',' ∷ quoted key t)) key ≡ some t
json_find_key-behind key sep fs t fits hk hs hf h solid =
    let rest = b',' ∷ quoted key t in
    json_find_key-found (put_fields sep fs rest) key t fits (keys_text key hk)
      (find_key key sep fs rest hk hs hf refl ∙ ap (with_key key rest) h ∙ find_first key t hk)
    ∙ ap some solid
