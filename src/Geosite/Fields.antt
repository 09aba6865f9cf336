-- ===== src/Geosite/Fields.antt =====
-- `_fields` of deploy/bot/parse-geosite.py reads what protobuf writes.
use proxy_gateway_plus.Prelude.{
  ℕ, zero, suc, ◌+◌, ◌*◌, ◌/◌, ◌%◌, ◌^◌, ◌≤◌, ◌<◌, ◌≡◌, refl, arith, ap, sym, ◌∙◌, Bool, true,
  false, List, [], ◌∷◌, ◌++◌, ◌⊎◌, inl, inr, if◌then◌else◌, ltb, leb, nat_eq, length, take, drop,
  length-append, All, ok, ◌>>=◌, ◌>>◌, guard,
}
use proxy_gateway_plus.Geosite.{
  bad_number, truncated_field, read_from, read_varint, Value, varint, raw, Field, length_of,
  cut_bytes, number_value, read_value, with_value, after_key, is_number, read_field, fields_from,
  fields,
}
use proxy_gateway_plus.Geosite.Varint.{put_varint, put_from, read_varint-put_varint}

-- A value as protobuf writes it for each wire type.
abbrev pub put_value : ℕ → Value → List ℕ
put_value wire (varint n) = put_varint n
put_value wire (raw bs) = if nat_eq wire 2 then put_varint (length bs) ++ bs else bs

abbrev pub put_field : Field → List ℕ
put_field f = put_varint (f.number * 8 + f.wire) ++ put_value f.wire f.value

abbrev pub put_fields : List Field → List ℕ
put_fields [] = []
put_fields (f ∷ fs) = put_field f ++ put_fields fs

-- The value is one of the wire type.
abbrev pub Fits : ℕ → Value → Type 0
Fits wire (varint n) = (wire ≡ 0) × (n < 2 ^ 64)
Fits wire (raw bs) =
    ((wire ≡ 1) × (length bs ≡ 8))
    ⊎ ((wire ≡ 2) × (length bs < 2 ^ 64))
    ⊎ ((wire ≡ 5) × (length bs ≡ 4))

pub record WellFormed (f : Field) : Type 0 where
  pub numbered : is_number f.number ≡ true
  pub fits : Fits f.wire f.value

take-append : (xs ys : List ℕ) → take (length xs) (xs ++ ys) ≡ xs
take-append [] ys = refl
take-append (x ∷ xs) ys = ap (λ l. x ∷ l) (take-append xs ys)

drop-append : (xs ys : List ℕ) → drop (length xs) (xs ++ ys) ≡ ys
drop-append [] ys = refl
drop-append (x ∷ xs) ys = drop-append xs ys

append_assoc : (xs ys zs : List ℕ) → (xs ++ ys) ++ zs ≡ xs ++ (ys ++ zs)
append_assoc [] ys zs = refl
append_assoc (x ∷ xs) ys zs = ap (λ l. x ∷ l) (append_assoc xs ys zs)

cut_bytes-append : (bs rest : List ℕ) → cut_bytes (length bs, bs ++ rest) ≡ ok (raw bs, rest)
unfolding cut_bytes
cut_bytes-append bs rest =
    ap
      (λ b.
        guard b truncated_field
        >> ok (raw (take (length bs) (bs ++ rest)), drop (length bs) (bs ++ rest)))
      (enough (length bs) (length (bs ++ rest)) (length rest) (length-append bs rest))
    ∙ ap (λ t. ok (raw t, drop (length bs) (bs ++ rest))) (take-append bs rest)
    ∙ ap (λ t. ok (raw bs, t)) (drop-append bs rest)
  where
    enough : (a b c : ℕ) → b ≡ a + c → leb a b ≡ true
    enough a b c e = ground (arith, e)

read_value-put_value :
    (wire : ℕ) (value : Value) (rest : List ℕ)
    → Fits wire value
    → read_value wire (put_value wire value ++ rest) ≡ ok (value, rest)
unfolding read_value length_of number_value
read_value-put_value wire (varint n) rest (zero_wire, small) =
    ap
      (λ w.
        if nat_eq w 0
        then read_varint (put_varint n ++ rest) >>= number_value
        else length_of w (put_varint n ++ rest) >>= cut_bytes)
      zero_wire
    ∙ ap (λ r. r >>= number_value) (read_varint-put_varint n rest small)
read_value-put_value wire (raw bs) rest (inl (e, eight)) =
    ap (λ w. read_value w (put_value w (raw bs) ++ rest)) e
    ∙ ap (λ n. cut_bytes (n, bs ++ rest)) (sym eight)
    ∙ cut_bytes-append bs rest
read_value-put_value wire (raw bs) rest (inr (inl (e, small))) =
    ap (λ w. read_value w (put_value w (raw bs) ++ rest)) e
    ∙ ap (λ l. read_varint l >>= cut_bytes) (append_assoc (put_varint (length bs)) bs rest)
    ∙ ap (λ r. r >>= cut_bytes) (read_varint-put_varint (length bs) (bs ++ rest) small)
    ∙ cut_bytes-append bs rest
read_value-put_value wire (raw bs) rest (inr (inr (e, four))) =
    ap (λ w. read_value w (put_value w (raw bs) ++ rest)) e
    ∙ ap (λ n. cut_bytes (n, bs ++ rest)) (sym four)
    ∙ cut_bytes-append bs rest

wire-small : (wire : ℕ) (value : Value) → Fits wire value → wire < 8
wire-small wire (varint n) (e, _) = omega (arith, e)
wire-small wire (raw bs) (inl (e, _)) = omega (arith, e)
wire-small wire (raw bs) (inr (inl (e, _))) = omega (arith, e)
wire-small wire (raw bs) (inr (inr (e, _))) = omega (arith, e)

key_number : (n w : ℕ) → w < 8 → (n * 8 + w) / 8 ≡ n
key_number n w h = omega (arith, h)

key_wire : (n w : ℕ) → w < 8 → (n * 8 + w) % 8 ≡ w
key_wire n w h = omega (arith, h)

key_fits : (n w : ℕ) → is_number n ≡ true → w < 8 → n * 8 + w < 2 ^ 64
unfolding is_number
key_fits n w h k = bounded n (ground (arith, h))
  where
    bounded : (m : ℕ) → m < 2 ^ 29 → m * 8 + w < 2 ^ 64
    bounded m i = omega (arith, i, k)

-- What `after_key` makes of a key with these parts.
after_key-parts :
    (key number wire : ℕ) (rest left : List ℕ) (value : Value)
    → key / 8 ≡ number
    → key % 8 ≡ wire
    → is_number number ≡ true
    → read_value wire rest ≡ ok (value, left)
    → after_key (key, rest) ≡ ok (record { number = number; wire = wire; value = value }, left)
unfolding after_key with_value
after_key-parts key number wire rest left value e f h k =
    ap (λ n. guard (is_number n) bad_number >> (read_value (key % 8) rest >>= with_value key)) e
    ∙ ap (λ b. guard b bad_number >> (read_value (key % 8) rest >>= with_value key)) h
    ∙ ap (λ w. read_value w rest >>= with_value key) f
    ∙ ap (λ r. r >>= with_value key) k
    ∙ ap (λ n. ok (record { number = n; wire = key % 8; value = value }, left)) e
    ∙ ap (λ w. ok (record { number = number; wire = w; value = value }, left)) f

pub read_field-put_field :
    (f : Field) (rest : List ℕ) → WellFormed f → read_field (put_field f ++ rest) ≡ ok (f, rest)
unfolding read_field
read_field-put_field f rest h =
    ap (λ l. read_varint l >>= after_key)
      (append_assoc (put_varint (f.number * 8 + f.wire)) (put_value f.wire f.value) rest)
    ∙ ap (λ r. r >>= after_key)
        (read_varint-put_varint (f.number * 8 + f.wire) (put_value f.wire f.value ++ rest)
          (key_fits f.number f.wire h.numbered small))
    ∙ after_key-parts (f.number * 8 + f.wire) f.number f.wire (put_value f.wire f.value ++ rest)
        rest f.value (key_number f.number f.wire small) (key_wire f.number f.wire small) h.numbered
        (read_value-put_value f.wire f.value rest h.fits)
  where
    small : f.wire < 8
    small = wire-small f.wire f.value h.fits

-- One round of the loop, on bytes that begin with a field.
fields_from-read :
    (fuel : ℕ) (bs rest : List ℕ) (f : Field)
    → read_field bs ≡ ok (f, rest)
    → fields_from (suc fuel) bs ≡ (do more ← fields_from fuel rest; ok (f ∷ more))
unfolding fields_from read_field read_varint read_from
fields_from-read fuel [] rest f h = cc
fields_from-read fuel (b ∷ bs) rest f h =
    ap (λ r. do next ← r; more ← fields_from fuel next.1; ok (next.0 ∷ more)) h

fields_from-put_fields :
    (fuel : ℕ) (fs : List Field)
    → All WellFormed fs
    → length fs ≤ fuel
    → fields_from fuel (put_fields fs) ≡ ok fs
unfolding fields_from
fields_from-put_fields fuel [] _ h = refl
fields_from-put_fields zero (f ∷ fs) _ h = absurd (omega (arith, h))
fields_from-put_fields (suc fuel) (f ∷ fs) (w, ws) h =
    fields_from-read fuel (put_field f ++ put_fields fs) (put_fields fs) f
      (read_field-put_field f (put_fields fs) w)
    ∙ ap (λ r. r >>= λ more. ok (f ∷ more))
        (fields_from-put_fields fuel fs ws (one_less (length fs) fuel h))
  where
    one_less : (a b : ℕ) → suc a ≤ suc b → a ≤ b
    one_less a b i = omega (arith, i)

put_varint-nonempty : (n : ℕ) → 1 ≤ length (put_varint n)
unfolding put_varint put_from
put_varint-nonempty n = go (ltb n 128) (put_from 9 (n / 128))
  where
    go : (b : Bool) (l : List ℕ) → 1 ≤ length (if b then n ∷ [] else (n % 128 + 128) ∷ l)
    go true l = omega arith
    go false l = omega arith

fields_cost : (fs : List Field) → length fs ≤ length (put_fields fs)
fields_cost [] = omega arith
fields_cost (f ∷ fs) =
    count (length fs) (length (put_fields fs)) (length (put_varint (f.number * 8 + f.wire)))
      (length (put_value f.wire f.value)) (length (put_field f))
      (length (put_field f ++ put_fields fs)) (fields_cost fs)
      (put_varint-nonempty (f.number * 8 + f.wire))
      (length-append (put_varint (f.number * 8 + f.wire)) (put_value f.wire f.value))
      (length-append (put_field f) (put_fields fs))
  where
    count : (a b k v p t : ℕ) → a ≤ b → 1 ≤ k → p ≡ k + v → t ≡ p + b → suc a ≤ t
    count a b k v p t h i j l = omega (arith, h, i, j, l)

-- A message of well-formed fields is read back as it was written.
pub fields-put_fields : (fs : List Field) → All WellFormed fs → fields (put_fields fs) ≡ ok fs
unfolding fields
fields-put_fields fs h = fields_from-put_fields (length (put_fields fs)) fs h (fields_cost fs)
