-- ===== src/CLib/Print.antt =====
-- What `printf` makes of numbers: "%u" and "%lu", "%ld" and "%d", and "%02x".
use mini_coin_slovak.Base.{ℕ, zero, suc, ◌+◌, ◌-◌, ◌/◌, ◌%◌, [], ◌∷◌, ltb, ◌==◌, if◌then◌else◌}
use mini_coin_slovak.Base.Int.{ℤ, pos, negsuc}
use mini_coin_slovak.CLib.Strings.{Bytes}

-- The digits of `n` in front of `out`, at most `fuel` of them.
unfoldable pub digits : ℕ → ℕ → Bytes → Bytes
digits zero n out = out
digits (suc fuel) n out =
    let d = b'0' + n % 10 in
    let rest = digits fuel (n / 10) (d ∷ out) in if n / 10 == 0 then d ∷ out else rest

-- Twenty digits are enough for 64 bits.
unfoldable pub decimal : ℕ → Bytes
decimal n = digits 20 n []

unfoldable pub decimal_ℤ : ℤ → Bytes
unfolding decimal
decimal_ℤ (pos n) = decimal n
decimal_ℤ (negsuc n) = b'-' ∷ decimal (suc n)

abbrev pub hex_digit : ℕ → ℕ
hex_digit d = if ltb d 10 then b'0' + d else b'a' + (d - 10)

-- `for (i = 0; i < len; i++) sprintf(out + i * 2, "%02x", bytes[i]);`
unfoldable pub hex : Bytes → Bytes
hex [] = []
hex (b ∷ bs) = hex_digit (b / 16) ∷ hex_digit (b % 16) ∷ hex bs
