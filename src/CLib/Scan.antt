-- ===== src/CLib/Scan.antt =====
-- Searching in strings, and reading numbers in base ten.
use Prim.Native.Char.{code}
use Prim.Native.String.{String}
use mini_coin_slovak.Base.{
  ℕ, ◌+◌, ◌-◌, ◌*◌, ◌%◌, ◌^◌, Bool, true, false, ◌&&◌, ◌||◌, Option, none, some, [], ◌∷◌, ltb, leb,
  ◌==◌, if◌then◌else◌,
}
use mini_coin_slovak.Base.Int.{ℤ, pos, negsuc, sub_ℕ}
use mini_coin_slovak.CLib.Strings.{Bytes}

-- The bytes of a literal; all literals here are ASCII.
abbrev pub codes : String → Bytes
codes String.[] = []
codes (String.◌∷◌ c s) = code c ∷ codes s

abbrev pub starts_with : Bytes → Bytes → Bool
starts_with [] s = true
starts_with (x ∷ p) [] = false
starts_with (x ∷ p) (y ∷ s) = x == y && starts_with p s

-- `strstr`: the text from the first match on.
unfoldable pub strstr : Bytes → Bytes → Option Bytes
strstr [] needle = if starts_with needle [] then some [] else none
strstr (c ∷ s) needle = elim (starts_with needle (c ∷ s)) [
  | true ↦ some (c ∷ s)
  | false ↦ strstr s needle
]

-- `strchr` of a character that is not NUL.
unfoldable pub strchr : Bytes → ℕ → Option Bytes
strchr [] c = none
strchr (x ∷ s) c = elim (x == c) [ true ↦ some (x ∷ s) | false ↦ strchr s c ]

abbrev pub is_digit : ℕ → Bool
is_digit c = leb b'0' c && leb c b'9'

-- `isspace`
abbrev pub is_space : ℕ → Bool
is_space c = c == b' ' || leb 9 c && leb c 13

unfoldable pub skip_white : Bytes → Bytes
skip_white [] = []
skip_white (c ∷ s) = let rest = skip_white s in if is_space c then rest else c ∷ s

-- The value of the digits in front, behind the value `n` of those before them.
unfoldable pub scan_digits : Bytes → ℕ → ℕ
scan_digits [] n = n
scan_digits (c ∷ s) n =
    let rest = scan_digits s (n * 10 + (c - b'0')) in if is_digit c then rest else n

-- A sign, and the digits behind it.
unfoldable pub scan_signed : Bytes → Bool × ℕ
unfolding scan_digits
scan_signed [] = (false, 0)
scan_signed (c ∷ s) =
    if c == b'-'
    then (true, scan_digits s 0)
    else if c == b'+'
    then (false, scan_digits s 0)
    else (false, scan_digits (c ∷ s) 0)

-- `strtoull(s, NULL, 10)`: too large a number gives the largest, and a minus sign negates.
unfoldable pub strtoull : Bytes → ℕ
unfolding scan_signed skip_white
strtoull s =
    let (negative, n) = scan_signed (skip_white s) in
    if leb (2 ^ 64) n then 2 ^ 64 - 1 else if negative then (2 ^ 64 - n) % 2 ^ 64 else n

-- `strtol(s, NULL, 10)`, which stops at the bounds of a 64-bit `long`.
unfoldable pub strtol : Bytes → ℤ
unfolding scan_signed skip_white
strtol s =
    let (negative, n) = scan_signed (skip_white s) in
    if negative
    then if leb n (2 ^ 63) then sub_ℕ 0 n else negsuc (2 ^ 63 - 1)
    else if ltb n (2 ^ 63)
    then pos n
    else pos (2 ^ 63 - 1)
