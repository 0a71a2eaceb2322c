-- ===== src/Json/Nested.antt =====
-- Counting braces (as `protocol_deserialize_chain` of src/protocol.c does for each block) over text in
-- which every object that begins also ends.
use mini_coin_slovak.Base.{ℕ, suc, ◌≡◌, refl, sym, ap, ◌∙◌, [], ◌∷◌, ◌++◌, arith, append_assoc}
use mini_coin_slovak.CLib.{Bytes}
use mini_coin_slovak.Json.{scan_object}
use mini_coin_slovak.Json.Braces.{HasNoBraces}

-- A text in front of an object and of what stands behind it.
abbrev pub in_front : Bytes → Bytes × Bytes → Bytes × Bytes
in_front s (object, rest) = (s ++ object, rest)

-- Inside of an object, the scan goes over the text and is as deep behind it as before it.
abbrev pub Passes : Bytes → Type 0
Passes s =
    (depth : ℕ) (r : Bytes)
    → scan_object (s ++ r) (suc depth) ≡ in_front s (scan_object r (suc depth))

pub HasNoBraces-Passes : (s : Bytes) → HasNoBraces s → Passes s
unfolding scan_object
HasNoBraces-Passes [] h depth r = refl
HasNoBraces-Passes (c ∷ s) (hc, hs) depth r = ground (arith, HasNoBraces-Passes s hs depth r)

pub Passes-append : (s t : Bytes) → Passes s → Passes t → Passes (s ++ t)
Passes-append s t hs ht depth r =
    ap (λ x. scan_object x (suc depth)) (append_assoc s t r)
    ∙ hs depth (t ++ r)
    ∙ ap (in_front s) (ht depth r)
    ∙ ap (λ x. (x, (scan_object r (suc depth)).1))
        (sym (append_assoc s t (scan_object r (suc depth)).0))

abbrev pub braced : Bytes → Bytes
braced s = b'{' ∷ (s ++ (b'}' ∷ []))

deeper :
    (depth : ℕ) (r : Bytes)
    → scan_object (b'{' ∷ r) (suc depth) ≡ in_front (b'{' ∷ []) (scan_object r (suc (suc depth)))
unfolding scan_object
deeper depth r = ground arith

back :
    (depth : ℕ) (r : Bytes)
    → scan_object (b'}' ∷ r) (suc (suc depth)) ≡ in_front (b'}' ∷ []) (scan_object r (suc depth))
unfolding scan_object
back depth r = ground arith

module _ (s : Bytes) (h : Passes s) (r : Bytes) where
  opened : braced s ++ r ≡ b'{' ∷ (s ++ (b'}' ∷ r))
  opened = ap (◌∷◌ b'{') (append_assoc s (b'}' ∷ []) r)

  -- The object ends at the brace that closes it.
  pub scan_object-braced : scan_object (braced s ++ r) 0 ≡ (braced s, r)
  unfolding scan_object
  scan_object-braced =
      ap (λ x. scan_object x 0) opened ∙ ap (in_front (b'{' ∷ [])) (h 0 (b'}' ∷ r)) ∙ refl

pub braced-Passes : (s : Bytes) → Passes s → Passes (braced s)
braced-Passes s h depth r =
    let behind = scan_object r (suc depth) in
    ap (λ x. scan_object x (suc depth)) (opened s h r)
    ∙ deeper depth (s ++ (b'}' ∷ r))
    ∙ ap (in_front (b'{' ∷ [])) (h (suc depth) (b'}' ∷ r) ∙ ap (in_front s) (back depth r))
    ∙ ap (λ x. (b'{' ∷ x, behind.1)) (sym (append_assoc s (b'}' ∷ []) behind.0))
