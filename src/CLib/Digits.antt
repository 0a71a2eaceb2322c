-- ===== src/CLib/Digits.antt =====
-- Decimal digits: how the text of a number is put together, whatever its length.
use native.Mathlib.Nat.{pow-suc}
use mini_coin_slovak.Base.{
  ℕ, zero, suc, ◌+◌, ◌*◌, ◌/◌, ◌%◌, ◌^◌, ◌<◌, ◌≡◌, refl, ◌∙◌, [], ◌∷◌, ◌++◌, arith,
}
use mini_coin_slovak.CLib.Strings.{Bytes}
use mini_coin_slovak.CLib.Print.{digits, decimal}

pub digits-append :
    (fuel n : ℕ) (out rest : Bytes) → digits fuel n (out ++ rest) ≡ digits fuel n out ++ rest
unfolding digits
digits-append zero n out rest = refl
digits-append (suc fuel) n out rest =
    ground (arith, digits-append fuel (n / 10) ((b'0' + n % 10) ∷ out) rest)

-- More rounds than digits change nothing.
digits-fuel :
    (fuel n : ℕ) (out : Bytes)
    → n < 10 ^ suc fuel
    → digits (suc fuel) n out ≡ digits (suc (suc fuel)) n out
unfolding digits
digits-fuel zero n out h = let small : n / 10 ≡ 0 = omega arith in ground arith
digits-fuel (suc fuel) n out h = ground (
  arith,
  pow-suc 10 (suc fuel),
  digits-fuel fuel (n / 10) ((b'0' + n % 10) ∷ out) (omega (arith, pow-suc 10 (suc fuel))),
)

pub digits-small : (fuel d : ℕ) (out : Bytes) → d < 10 → digits (suc fuel) d out ≡ (b'0' + d) ∷ out
unfolding digits
digits-small fuel d out h = let none_left : d / 10 ≡ 0 = omega arith in ground arith

pub digits-large :
    (fuel n d : ℕ) (out : Bytes)
    → 0 < n
    → d < 10
    → digits (suc fuel) (10 * n + d) out ≡ digits fuel n ((b'0' + d) ∷ out)
unfolding digits
digits-large fuel n d out pos h =
    let front : (10 * n + d) / 10 ≡ n = omega arith in
    let back : (10 * n + d) % 10 ≡ d = omega arith in rw (front, back) (ground arith)

pub decimal_digit : (d : ℕ) → d < 10 → decimal d ≡ (b'0' + d) ∷ []
unfolding decimal
decimal_digit d h = digits-small 19 d [] h

-- The last digit stands behind the others.
pub decimal_last :
    (n d : ℕ) → 0 < n → n < 10 ^ 19 → d < 10 → decimal (10 * n + d) ≡ decimal n ++ ((b'0' + d) ∷ [])
unfolding decimal
decimal_last n d pos small h =
    digits-large 19 n d [] pos h
    ∙ digits-fuel 18 n ((b'0' + d) ∷ []) small
    ∙ digits-append 20 n [] ((b'0' + d) ∷ [])
