-- ===== src/CLib/Length.antt =====
-- How long printed numbers and copied texts are.
use mini_coin_slovak.Base.{
  ℕ, zero, suc, ◌+◌, ◌*◌, ◌/◌, ◌%◌, ◌-◌, ◌≤◌, ◌<◌, ◌≡◌, [], ◌∷◌, ◌++◌, arith, length, take-all,
}
use mini_coin_slovak.Base.Int.{ℤ, pos, negsuc}
use mini_coin_slovak.CLib.Strings.{Bytes, Buffer, snprintf}
use mini_coin_slovak.CLib.Print.{digits, decimal, decimal_ℤ, hex}

length-digits-le : (fuel n : ℕ) (out : Bytes) → length (digits fuel n out) ≤ fuel + length out
unfolding digits
length-digits-le zero n out = omega arith
length-digits-le (suc fuel) n out =
    ground (arith, length-digits-le fuel (n / 10) ((b'0' + n % 10) ∷ out))

pub length-decimal-le : (n : ℕ) → length (decimal n) ≤ 20
unfolding decimal
length-decimal-le n = omega (arith, length-digits-le 20 n [])

pub length-decimal_ℤ-le : (z : ℤ) → length (decimal_ℤ z) ≤ 21
unfolding decimal_ℤ
length-decimal_ℤ-le (pos n) = omega (arith, length-decimal-le n)
length-decimal_ℤ-le (negsuc n) = omega (arith, length-decimal-le (suc n))

pub length-hex : (s : Bytes) → length (hex s) ≡ 2 * length s
unfolding hex
length-hex [] = omega arith
length-hex (b ∷ s) = omega (arith, length-hex s)

-- A text that fits is written whole.
pub snprintf_fits :
    (size : ℕ) (b : Buffer) (s : Bytes)
    → length b.text ≡ b.offset
    → b.offset + length s < size
    → snprintf size b s ≡ record { text = b.text ++ s; offset = b.offset + length s }
snprintf_fits size b s h fits =
    rw (take-all b.offset b.text (omega arith), take-all (size - b.offset - 1) s (omega arith))
