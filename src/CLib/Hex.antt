-- ===== src/CLib/Hex.antt =====
-- Reading bytes in base sixteen by `sscanf(s, "%02x", &byte)`, as the C standard has it, which takes a
-- lone "0x" for no number.
use mini_coin_slovak.Base.{
  ℕ, zero, suc, ◌+◌, ◌-◌, ◌*◌, ◌/◌, ◌%◌, ◌^◌, ◌<◌, ◌≡◌, refl, ap, ◌∙◌, Bool, true, false, ◌&&◌,
  ◌||◌, Option, none, some, [], ◌∷◌, arith, All, leb, ◌==◌, if◌then◌else◌,
}
use mini_coin_slovak.CLib.Strings.{Bytes}
use mini_coin_slovak.CLib.Print.{hex_digit, hex}
use mini_coin_slovak.CLib.Scan.{is_digit, skip_white}

abbrev pub hex_value : ℕ → Option ℕ
hex_value c =
    if is_digit c
    then some (c - b'0')
    else if leb b'a' c && leb c b'f'
    then some (c - b'a' + 10)
    else if leb b'A' c && leb c b'F'
    then some (c - b'A' + 10)
    else none

-- The value of at most `width` digits in front, behind the value `n` of those before them.
unfoldable pub scan_hex_digits : ℕ → Bytes → ℕ → ℕ
scan_hex_digits zero s n = n
scan_hex_digits (suc width) [] n = n
scan_hex_digits (suc width) (c ∷ s) n = elim (hex_value c) [
  | none ↦ n
  | some d ↦ scan_hex_digits width s (16 * n + d)
]

-- At least one digit.
unfoldable pub scan_hex : ℕ → Bytes → Option ℕ
scan_hex zero s = none
scan_hex (suc width) [] = none
scan_hex (suc width) (c ∷ s) = elim (hex_value c) [
  | none ↦ none
  | some d ↦ some (scan_hex_digits width s d)
]

-- "0x" or "0X"
abbrev pub is_prefix : ℕ → Bytes → Bool
is_prefix c [] = false
is_prefix c (d ∷ s) = c == b'0' && (d == b'x' || d == b'X')

-- A minus sign negates the `unsigned int`.
abbrev pub negated : Option ℕ → Option ℕ
negated none = none
negated (some n) = some ((2 ^ 32 - n) % 2 ^ 32)

unfoldable pub scan_signed_hex : Bytes → Option ℕ
unfolding scan_hex
scan_signed_hex [] = none
scan_signed_hex (c ∷ s) =
    if c == b'-'
    then negated (scan_hex 1 s)
    else if c == b'+'
    then scan_hex 1 s
    else if is_prefix c s
    then none
    else scan_hex 2 (c ∷ s)

-- `none` if the result of `sscanf` is not 1.
unfoldable pub sscanf_hex : Bytes → Option ℕ
unfolding scan_signed_hex skip_white
sscanf_hex s = scan_signed_hex (skip_white s)

hex_value-hex_digit : (d : ℕ) → d < 16 → hex_value (hex_digit d) ≡ some d
hex_value-hex_digit d h = ground arith

scan_signed_hex-digits :
    (c d : ℕ) (s : Bytes) {m n : ℕ}
    → hex_value c ≡ some m
    → hex_value d ≡ some n
    → scan_signed_hex (c ∷ d ∷ s) ≡ some (16 * m + n)
unfolding scan_signed_hex scan_hex scan_hex_digits
scan_signed_hex-digits c d s hc hd =
    let not_minus : (c == b'-') ≡ false = ground arith in
    let not_plus : (c == b'+') ≡ false = ground arith in
    let not_x : is_prefix c (d ∷ s) ≡ false = ground arith in
    rw (not_minus, not_plus, not_x, scan_hex, hc, scan_hex_digits, hd) refl

skip_white-digit : (c : ℕ) (s : Bytes) {m : ℕ} → hex_value c ≡ some m → skip_white (c ∷ s) ≡ c ∷ s
unfolding skip_white
skip_white-digit c s hc = ground arith

-- The two digits of a byte are read back.
pub sscanf_hex-byte :
    (b : ℕ) (s : Bytes)
    → b < 256
    → sscanf_hex (hex_digit (b / 16) ∷ hex_digit (b % 16) ∷ s) ≡ some b
unfolding sscanf_hex
sscanf_hex-byte b s h =
    let high = hex_value-hex_digit (b / 16) (omega arith) in
    let low = hex_value-hex_digit (b % 16) (omega arith) in
    ap scan_signed_hex (skip_white-digit (hex_digit (b / 16)) (hex_digit (b % 16) ∷ s) high)
    ∙ scan_signed_hex-digits (hex_digit (b / 16)) (hex_digit (b % 16)) s high low
    ∙ ap some (omega arith)

-- What `sprintf` makes of bytes with "%02x": digits and the letters a to f.
abbrev pub is_hex_char : ℕ → Bool
is_hex_char c = is_digit c || leb b'a' c && leb c b'f'

is_hex_char-hex_digit : (d : ℕ) → d < 16 → is_hex_char (hex_digit d) ≡ true
is_hex_char-hex_digit d h = ground arith

pub hex-chars :
    (bad : ℕ → Bool)
    → ((c : ℕ) → is_hex_char c ≡ true → bad c ≡ false)
    → (s : Bytes) → All (λ b. b < 256) s
    → All (λ c. bad c ≡ false) (hex s)
unfolding hex
hex-chars bad h [] hs = tt
hex-chars bad h (b ∷ s) (hb, hs) = (
  h (hex_digit (b / 16)) (is_hex_char-hex_digit (b / 16) (omega arith)),
  (h (hex_digit (b % 16)) (is_hex_char-hex_digit (b % 16) (omega arith)), hex-chars bad h s hs),
)
