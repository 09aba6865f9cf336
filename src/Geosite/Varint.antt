-- ===== src/Geosite/Varint.antt =====
-- `_rv` of deploy/bot/parse-geosite.py reads what protobuf writes.
use native.Mathlib.Nat.{pow-suc}
use proxy_gateway_plus.Prelude.{
  ℕ, zero, suc, ◌+◌, ◌*◌, ◌/◌, ◌%◌, ◌^◌, ◌<◌, ◌≡◌, refl, arith, ap, ◌∙◌, true, false, ◌&&◌, List,
  [], ◌∷◌, ◌++◌, if◌then◌else◌, ltb, nat_eq, ok, err, Bool-cases, inl, inr,
}
use proxy_gateway_plus.Geosite.{varint_too_long, read_from, read_varint}

-- Groups of seven bits from the lowest, each but the last with its top bit set.
unfoldable pub put_from : ℕ → ℕ → List ℕ
put_from zero n = []
put_from (suc rounds) n =
    let more = put_from rounds (n / 128) in if ltb n 128 then n ∷ [] else (n % 128 + 128) ∷ more

unfoldable pub put_varint : ℕ → List ℕ
put_varint = put_from 10

-- The first number that does not fit in these many last rounds.
cap : ℕ → ℕ
cap zero = 0
cap (suc zero) = 2
cap (suc (suc rounds)) = 128 * cap (suc rounds)

place_split : (r q p : ℕ) → r * p + q * (128 * p) ≡ (128 * q + r) * p
place_split r q p = omega arith

pow_step : (s : ℕ) → 2 ^ (s + 7) ≡ 128 * 2 ^ s
pow_step s = omega (
  arith,
  seven,
  pow-suc 2 s,
  pow-suc 2 (suc s),
  pow-suc 2 (suc (suc s)),
  pow-suc 2 (suc (suc (suc s))),
  pow-suc 2 (suc (suc (suc (suc s)))),
  pow-suc 2 (suc (suc (suc (suc (suc s))))),
  pow-suc 2 (suc (suc (suc (suc (suc (suc s)))))),
)
  where
    count : (a : ℕ) → a + 7 ≡ suc (suc (suc (suc (suc (suc (suc a))))))
    count a = omega arith

    seven : 2 ^ (s + 7) ≡ 2 ^ suc (suc (suc (suc (suc (suc (suc s))))))
    seven = ap (λ n. 2 ^ n) (count s)

split_value : (n p : ℕ) → n % 128 * p + n / 128 * (128 * p) ≡ n * p
split_value n p = place_split (n % 128) (n / 128) p ∙ ap (λ k. k * p) (whole n)
  where
    whole : (m : ℕ) → 128 * (m / 128) + m % 128 ≡ m
    whole m = omega arith

low_bits : (n : ℕ) → (n % 128 + 128) % 128 ≡ n % 128
low_bits n = omega arith

below : (n : ℕ) → ltb n 128 ≡ true → n % 128 ≡ n
below n h = ground arith

put-small : (k n : ℕ) → ltb n 128 ≡ true → put_from (suc k) n ≡ n ∷ []
unfolding put_from
put-small k n h = ap (λ b. if b then n ∷ [] else (n % 128 + 128) ∷ put_from k (n / 128)) h

put-large :
    (k n : ℕ) → ltb n 128 ≡ false → put_from (suc k) n ≡ (n % 128 + 128) ∷ put_from k (n / 128)
unfolding put_from
put-large k n h = ap (λ b. if b then n ∷ [] else (n % 128 + 128) ∷ put_from k (n / 128)) h

read-end :
    (rounds shift result v : ℕ) (rest : List ℕ)
    → (nat_eq shift 63 && ltb 1 v) ≡ false
    → ltb v 128 ≡ true
    → read_from (suc rounds) shift result (v ∷ rest) ≡ ok (result + v % 128 * 2 ^ shift, rest)
unfolding read_from
read-end rounds shift result v rest h k =
    ap
      (λ b.
        if b
        then err varint_too_long
        else if ltb v 128
        then ok (result + v % 128 * 2 ^ shift, rest)
        else read_from rounds (shift + 7) (result + v % 128 * 2 ^ shift) rest)
      h
    ∙ ap
        (λ b.
          if b
          then ok (result + v % 128 * 2 ^ shift, rest)
          else read_from rounds (shift + 7) (result + v % 128 * 2 ^ shift) rest)
        k

read-more :
    (rounds shift result v : ℕ) (rest : List ℕ)
    → (nat_eq shift 63 && ltb 1 v) ≡ false
    → ltb v 128 ≡ false
    → read_from (suc rounds) shift result (v ∷ rest)
      ≡ read_from rounds (shift + 7) (result + v % 128 * 2 ^ shift) rest
unfolding read_from
read-more rounds shift result v rest h k =
    ap
      (λ b.
        if b
        then err varint_too_long
        else if ltb v 128
        then ok (result + v % 128 * 2 ^ shift, rest)
        else read_from rounds (shift + 7) (result + v % 128 * 2 ^ shift) rest)
      h
    ∙ ap
        (λ b.
          if b
          then ok (result + v % 128 * 2 ^ shift, rest)
          else read_from rounds (shift + 7) (result + v % 128 * 2 ^ shift) rest)
        k

not_last :
    (rounds shift v : ℕ) → shift + 7 * suc (suc rounds) ≡ 70 → (nat_eq shift 63 && ltb 1 v) ≡ false
not_last rounds shift v s = ground (arith, s)

fits_last : (shift v : ℕ) → v < 2 → (nat_eq shift 63 && ltb 1 v) ≡ false
fits_last shift v h = ground (arith, h)

quotient : (n c : ℕ) → n < 128 * c → n / 128 < c
quotient n c h = omega (arith, h)

-- A last byte is read with the rounds that are left.
read-last :
    (k shift result n : ℕ) (rest : List ℕ)
    → (nat_eq shift 63 && ltb 1 n) ≡ false
    → ltb n 128 ≡ true
    → read_from (suc k) shift result (put_from (suc k) n ++ rest)
      ≡ ok (result + n * 2 ^ shift, rest)
read-last k shift result n rest h small =
    ap (λ bs. read_from (suc k) shift result (bs ++ rest)) (put-small k n small)
    ∙ read-end k shift result n rest h small
    ∙ ap (λ v. ok (result + v * 2 ^ shift, rest)) (below n small)

-- The result of a read from a place onwards.
read_from-put_from :
    (rounds shift result n : ℕ) (rest : List ℕ)
    → shift + 7 * rounds ≡ 70
    → n < cap rounds
    → read_from rounds shift result (put_from rounds n ++ rest) ≡ ok (result + n * 2 ^ shift, rest)
unfolding cap
read_from-put_from zero shift result n rest s h = absurd (omega (arith, h))
read_from-put_from (suc zero) shift result n rest s h =
    read-last zero shift result n rest (fits_last shift n h) (small n h)
  where
    small : (m : ℕ) → m < 2 → ltb m 128 ≡ true
    small m k = ground (arith, k)
read_from-put_from (suc (suc rounds)) shift result n rest s h = elim (Bool-cases (ltb n 128)) [
  | inl small ↦ read-last (suc rounds) shift result n rest (not_last rounds shift n s) small
  | inr large ↦
      ap (λ bs. read_from (suc (suc rounds)) shift result (bs ++ rest))
        (put-large (suc rounds) n large)
      ∙ read-more (suc rounds) shift result (n % 128 + 128)
          (put_from (suc rounds) (n / 128) ++ rest) (not_last rounds shift (n % 128 + 128) s)
          (top_bit n)
      ∙ read_from-put_from (suc rounds) (shift + 7) (result + (n % 128 + 128) % 128 * 2 ^ shift)
          (n / 128) rest (next_shift rounds shift s) (quotient n (cap (suc rounds)) h)
      ∙ ap (λ v. ok (v, rest)) (total result n (2 ^ shift) (2 ^ (shift + 7)) (pow_step shift))
]
  where
    top_bit : (m : ℕ) → ltb (m % 128 + 128) 128 ≡ false
    top_bit m = ground arith

    next_shift : (k a : ℕ) → a + 7 * suc (suc k) ≡ 70 → (a + 7) + 7 * suc k ≡ 70
    next_shift k a e = omega (arith, e)

    total : (r m p q : ℕ) → q ≡ 128 * p → r + (m % 128 + 128) % 128 * p + m / 128 * q ≡ r + m * p
    total r m p q e =
        ap (λ x. r + x * p + m / 128 * q) (low_bits m)
        ∙ ap (λ x. r + m % 128 * p + m / 128 * x) e
        ∙ assemble r (m % 128 * p) (m / 128 * (128 * p)) (m * p) (split_value m p)
      where
        assemble : (a b c d : ℕ) → b + c ≡ d → a + b + c ≡ a + d
        assemble a b c d k = omega (arith, k)

-- Every number below 2 ^ 64 is read back as it was written, and what follows it is left.
pub read_varint-put_varint :
    (n : ℕ) (rest : List ℕ) → n < 2 ^ 64 → read_varint (put_varint n ++ rest) ≡ ok (n, rest)
unfolding read_varint put_varint cap
read_varint-put_varint n rest h =
    read_from-put_from 10 0 0 n rest refl h ∙ ap (λ v. ok (v, rest)) (unit n)
  where
    unit : (m : ℕ) → 0 + m * 2 ^ 0 ≡ m
    unit m = omega arith
