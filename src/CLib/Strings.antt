-- ===== src/CLib/Strings.antt =====
-- C strings. A `char` array is modelled by the text before its first NUL byte, so a value of
-- `Bytes` is what `strlen`, `strcmp` and `%s` see of it.
use mini_coin_slovak.Base.{
  ℕ, zero, suc, ◌+◌, ◌-◌, ◌≡◌, ◌↔◌, Bool, true, false, ◌&&◌, List, [], ◌∷◌, ◌++◌, arith, ◌==◌,
  length, take,
}

abbrev pub Bytes : Type 0
Bytes = List ℕ

-- `strcmp(a, b) == 0`
abbrev pub str_eq : Bytes → Bytes → Bool
str_eq [] [] = true
str_eq [] (y ∷ b) = false
str_eq (x ∷ a) [] = false
str_eq (x ∷ a) (y ∷ b) = x == y && str_eq a b

-- `strncmp(a, b, n) == 0`
abbrev pub strncmp_eq : ℕ → Bytes → Bytes → Bool
strncmp_eq zero a b = true
strncmp_eq (suc n) [] [] = true
strncmp_eq (suc n) [] (y ∷ b) = false
strncmp_eq (suc n) (x ∷ a) [] = false
strncmp_eq (suc n) (x ∷ a) (y ∷ b) = x == y && strncmp_eq n a b

-- `strncpy(dst, src, n)` into an array of zeroes that is longer than `n`, or of a `src` whose
-- NUL byte stands among the first `n` bytes.
abbrev pub strncpy : Bytes → ℕ → Bytes
strncpy src n = take n src

-- `buf` and the offset at which the next `snprintf` writes.
pub record Buffer : Type 0 where
  pub text : Bytes
  pub offset : ℕ

-- `offset += snprintf(buf + offset, size - offset, …)`, where `s` is the text that the format
-- makes: as much of it as fits is written, and its full length is returned.
abbrev pub snprintf : ℕ → Buffer → Bytes → Buffer
snprintf size b s = record {
  text = take b.offset b.text ++ take (size - b.offset - 1) s;
  offset = b.offset + length s;
}

pub str_eq_iff : (a b : Bytes) → (str_eq a b ≡ true) ↔ (a ≡ b)
str_eq_iff (x ∷ a) (y ∷ b) = ground (arith, str_eq_iff a b)
str_eq_iff _ _ = ground arith
