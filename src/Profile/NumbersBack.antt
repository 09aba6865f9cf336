-- ===== src/Profile/NumbersBack.antt =====
-- `_uint` and `_mark` of deploy/bot/pdgprofile.py on the numbers that it writes.
use mathlib.Core.Option.{some-injective}
use proxy_gateway_plus.Prelude.{
  ℕ, zero, suc, ◌+◌, ◌*◌, ◌/◌, ◌%◌, ◌^◌, ◌<◌, ◌≤◌, true, false, Option, none, some, List, [], ◌∷◌,
  ◌++◌, ◌==◌, ==_iff, ℕ_eq, ltb, contains, All, All-append, ok, ◌≡◌, refl, sym, ap, ◌∙◌, inl, inr,
  arith, Option-cases, if-split,
}
use proxy_gateway_plus.Prelude.Texts.{Text, is_space}
use proxy_gateway_plus.Profile.Numbers.{
  decimal_from, uint_text, uint, hex_digit, hex_from, mark_text, mark, in_range, digits, hex_digits,
  hex_code, decimal_text, hex_text,
}
use proxy_gateway_plus.Profile.ReadBack.{strip_text-Solid, digits-Solid, decimal_from-digits}

-- A text that does not begin with the digit 0.
abbrev LeadsNonzero : Text → Type 0
LeadsNonzero [] = true ≡ false
LeadsNonzero (c ∷ cs) = (c == 48) ≡ false

LeadsNonzero-append : (xs ys : Text) → LeadsNonzero xs → LeadsNonzero (xs ++ ys)
LeadsNonzero-append [] ys h = cc
LeadsNonzero-append (c ∷ cs) ys h = h

LeadsNonzero-digits : (fuel n : ℕ) → 1 ≤ n → n < 10 ^ fuel → LeadsNonzero (digits fuel n)
unfolding digits
LeadsNonzero-digits zero n p h = ground (arith, p, h)
LeadsNonzero-digits (suc fuel) n p h =
    if-split LeadsNonzero (ltb n 10) _ _ (λ l. ground (arith, ==_iff (48 + n) 48, p))
      (λ l.
        LeadsNonzero-append (digits fuel (n / 10)) _
          (LeadsNonzero-digits fuel (n / 10) (ground arith) (omega (arith, h))))

uint_text-digits : (t : Text) → LeadsNonzero t → uint_text t ≡ decimal_from 0 t
uint_text-digits [] h = cc
uint_text-digits (c ∷ []) h = refl
uint_text-digits (c ∷ d ∷ cs) h = rw h refl

-- A number from 1 to a maximum of 32 bits is read back by `_uint` from its decimal digits, where it is
-- not forbidden.
pub uint-decimal_text :
    (n maximum : ℕ) (forbidden : List ℕ)
    → in_range maximum n ≡ true
    → maximum ≤ 4294967295
    → contains n forbidden ≡ false
    → uint (decimal_text n) maximum forbidden ≡ ok n
unfolding uint
uint-decimal_text n maximum forbidden r m f =
    rw
      (
        strip_text-Solid (decimal_text n) (digits-Solid 10 n),
        uint_text-digits (decimal_text n) (LeadsNonzero-digits 10 n (ground arith) (ground arith)),
        decimal_from-digits 10 n (ground arith),
        r,
        f,
      )
      refl

hex_digit-hex_code : (d : ℕ) → d < 16 → hex_digit (hex_code d) ≡ some d
hex_digit-hex_code d h =
    if-split (λ c. hex_digit c ≡ some d) (ltb d 10) _ _ (λ l. ground arith) (λ l. ground (arith, h))

hex_code-Solid : (d : ℕ) → d < 16 → is_space (hex_code d) ≡ false
hex_code-Solid d h =
    if-split (λ c. is_space c ≡ false) (ltb d 10) _ _ (λ l. ground arith) (λ l. ground (arith, h))

hex_digits-Solid : (fuel n : ℕ) → All (λ c. is_space c ≡ false) (hex_digits fuel n)
unfolding hex_digits
hex_digits-Solid zero n = tt
hex_digits-Solid (suc fuel) n =
    if-split (All (λ c. is_space c ≡ false)) (ltb n 16) _ _
      (λ l. (hex_code-Solid n (ground arith), tt))
      (λ l.
        All-append (λ c. is_space c ≡ false) (hex_digits fuel (n / 16)) _
          (hex_digits-Solid fuel (n / 16)) (hex_code-Solid (n % 16) (omega arith), tt))

hex_from-digit :
    (n c d : ℕ) (cs : Text) → hex_digit c ≡ some d → hex_from n (c ∷ cs) ≡ hex_from (n * 16 + d) cs
hex_from-digit n c d cs e =
    ap (λ (o : Option ℕ). elim o [ none ↦ none | some d' ↦ hex_from (n * 16 + d') cs ]) e

hex_from-other : (n c : ℕ) (cs : Text) → hex_digit c ≡ none → hex_from n (c ∷ cs) ≡ none
hex_from-other n c cs e =
    ap (λ (o : Option ℕ). elim o [ none ↦ none | some d' ↦ hex_from (n * 16 + d') cs ]) e

hex_from-append :
    (a m : ℕ) (xs ys : Text) → hex_from a xs ≡ some m → hex_from a (xs ++ ys) ≡ hex_from m ys
hex_from-append a m [] ys h = ap (λ k. hex_from k ys) (some-injective a m h)
hex_from-append a m (c ∷ cs) ys h = elim (Option-cases (hex_digit c)) [
  | inl e ↦ cc (h, hex_from-other a c cs e)
  | inr (d, e) ↦
      hex_from-digit a c d (cs ++ ys) e
      ∙ hex_from-append (a * 16 + d) m cs ys (sym (hex_from-digit a c d cs e) ∙ h)
]

hex_from-hex_digits : (fuel n : ℕ) → n < 16 ^ fuel → hex_from 0 (hex_digits fuel n) ≡ some n
unfolding hex_digits
hex_from-hex_digits zero n h = ap some (omega (arith, h))
hex_from-hex_digits (suc fuel) n h =
    if-split (λ t. hex_from 0 t ≡ some n) (ltb n 16) _ _
      (λ l.
        hex_from-digit 0 (hex_code n) n [] (hex_digit-hex_code n (ground arith))
        ∙ ap some (omega arith))
      (λ l.
        hex_from-append 0 (n / 16) (hex_digits fuel (n / 16)) (hex_code (n % 16) ∷ [])
          (hex_from-hex_digits fuel (n / 16) (omega (arith, h)))
        ∙ hex_from-digit (n / 16) (hex_code (n % 16)) (n % 16) []
            (hex_digit-hex_code (n % 16) (omega arith))
        ∙ ap some (omega arith))

-- After `0x` there is a digit at least.
mark_text-hex :
    (t : Text) → (m : ℕ) → hex_from 0 t ≡ some m → 1 ≤ m → mark_text (48 ∷ 120 ∷ t) ≡ some m
mark_text-hex [] m h p = absurd (some-injective 0 m h) p
  where
    absurd : 0 ≡ m → 1 ≤ m → mark_text (48 ∷ 120 ∷ []) ≡ some m
    absurd e q = ground (arith, e, q)
mark_text-hex (c ∷ cs) m h p = h

-- A mark from 1 to 2 ^ 32 - 1 is read back by `_mark` from its hexadecimal digits.
pub mark-hex_text : (n : ℕ) → in_range 4294967295 n ≡ true → mark (hex_text n) ≡ ok n
unfolding mark
mark-hex_text n r =
    rw
      (
        strip_text-Solid (hex_text n) (refl, (refl, hex_digits-Solid 8 n)),
        mark_text-hex (hex_digits 8 n) n (hex_from-hex_digits 8 n (ground arith)) (ground arith),
        r,
      )
      refl
