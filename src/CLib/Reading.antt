-- ===== src/CLib/Reading.antt =====
-- Numbers that `printf` printed are read back by `strtoull` and `strtol`.
use mini_coin_slovak.Base.{
  ℕ, zero, suc, ◌+◌, ◌/◌, ◌%◌, ◌^◌, ◌<◌, ◌≡◌, sym, ap, ◌∙◌, Bool, true, false, ◌||◌, not, [], ◌∷◌,
  ◌++◌, arith, ◌==◌, All,
}
use mini_coin_slovak.Base.Int.{pos}
use mini_coin_slovak.CLib.Strings.{Bytes}
use mini_coin_slovak.CLib.Print.{digits, decimal}
use mini_coin_slovak.CLib.Digits.{digits-append}
use mini_coin_slovak.CLib.Scan.{
  is_digit, is_space, skip_white, scan_digits, scan_signed, strtoull, strtol,
}
use native.Mathlib.Nat.{pow-suc}

abbrev pub IsDigits : Bytes → Type 0
IsDigits = All (λ c. is_digit c ≡ true)

IsDigits-digits : (fuel n : ℕ) (out : Bytes) → IsDigits out → IsDigits (digits fuel n out)
unfolding digits
IsDigits-digits zero n out h = h
IsDigits-digits (suc fuel) n out h =
    ground (arith, IsDigits-digits fuel (n / 10) ((b'0' + n % 10) ∷ out) (ground arith, h))

pub decimal-IsDigits : (n : ℕ) → IsDigits (decimal n)
unfolding decimal
decimal-IsDigits n = IsDigits-digits 20 n [] tt

scan_digits-digits :
    (fuel n : ℕ) (out : Bytes)
    → n < 10 ^ suc fuel
    → scan_digits (digits (suc fuel) n out) 0 ≡ scan_digits out n
unfolding digits scan_digits
scan_digits-digits zero n out h = let small : n / 10 ≡ 0 = omega arith in ground arith
scan_digits-digits (suc fuel) n out h = ground (
  arith,
  scan_digits-digits fuel (n / 10) ((b'0' + n % 10) ∷ out) (omega (arith, pow-suc 10 (suc fuel))),
)

-- What stands behind the digits may be any text that begins with no digit.
pub scan_digits-decimal :
    (n c : ℕ) (r : Bytes)
    → n < 2 ^ 64
    → is_digit c ≡ false
    → scan_digits (decimal n ++ (c ∷ r)) 0 ≡ n
unfolding decimal scan_digits
scan_digits-decimal n c r h hc =
    ap (λ t. scan_digits t 0) (sym (digits-append 20 n [] (c ∷ r)))
    ∙ scan_digits-digits 19 n (c ∷ r) (omega arith)
    ∙ ground (arith, hc)

-- A byte that is neither white space nor a sign.
abbrev pub is_plain : ℕ → Bool
is_plain c = not (is_space c || (c == b'-' || c == b'+'))

is_digit-is_plain : (d : ℕ) → is_digit d ≡ true → is_plain d ≡ true
is_digit-is_plain d h = ground arith

skip_white-plain : (c : ℕ) (r : Bytes) → is_plain c ≡ true → skip_white (c ∷ r) ≡ c ∷ r
unfolding skip_white
skip_white-plain c r h = ground arith

skip_white-digits :
    (ds : Bytes) (c : ℕ) (r : Bytes)
    → IsDigits ds
    → is_plain c ≡ true
    → skip_white (ds ++ (c ∷ r)) ≡ ds ++ (c ∷ r)
skip_white-digits [] c r hd hc = skip_white-plain c r hc
skip_white-digits (d ∷ ds) c r hd hc = skip_white-plain d (ds ++ (c ∷ r)) (is_digit-is_plain d hd.0)

scan_signed-digits :
    (ds : Bytes) (c : ℕ) (r : Bytes)
    → IsDigits ds
    → is_plain c ≡ true
    → scan_signed (ds ++ (c ∷ r)) ≡ (false, scan_digits (ds ++ (c ∷ r)) 0)
unfolding scan_signed
scan_signed-digits [] c r hd hc = ground arith
scan_signed-digits (d ∷ ds) c r hd hc = ground arith

scan_signed-decimal :
    (n c : ℕ) (r : Bytes)
    → n < 2 ^ 64
    → is_digit c ≡ false
    → is_plain c ≡ true
    → scan_signed (skip_white (decimal n ++ (c ∷ r))) ≡ (false, n)
scan_signed-decimal n c r h hd hc =
    ap scan_signed (skip_white-digits (decimal n) c r (decimal-IsDigits n) hc)
    ∙ scan_signed-digits (decimal n) c r (decimal-IsDigits n) hc
    ∙ ap (λ m. (false, m)) (scan_digits-decimal n c r h hd)

pub strtoull-decimal :
    (n c : ℕ) (r : Bytes)
    → n < 2 ^ 64
    → is_digit c ≡ false
    → is_plain c ≡ true
    → strtoull (decimal n ++ (c ∷ r)) ≡ n
unfolding strtoull
strtoull-decimal n c r h hd hc = ground (arith, scan_signed-decimal n c r h hd hc)

pub strtol-decimal :
    (n c : ℕ) (r : Bytes)
    → n < 2 ^ 63
    → is_digit c ≡ false
    → is_plain c ≡ true
    → strtol (decimal n ++ (c ∷ r)) ≡ pos n
unfolding strtol
strtol-decimal n c r h hd hc = ground (arith, scan_signed-decimal n c r (omega arith) hd hc)
