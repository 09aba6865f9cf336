-- ===== src/Geosite/Consumed.antt =====
-- Each round of `_fields` in deploy/bot/parse-geosite.py takes a byte, so that its loop ends.
use proxy_gateway_plus.Prelude.{
  ℕ, zero, suc, ◌+◌, ◌*◌, ◌/◌, ◌%◌, ◌^◌, ◌≤◌, ◌≢◌, arith, Bool, true, false, ◌&&◌, List, [], ◌∷◌,
  ltb, leb, nat_eq, length, drop, Result, ok, err, ◌>>=◌, ◌>>◌, guard, if-split,
}
use proxy_gateway_plus.Geosite.{
  WireError, bad_number, bad_wire_type, truncated_field, out_of_fuel, read_from, read_varint, Field,
  length_of, cut_bytes, number_value, read_value, with_value, after_key, is_number, read_field,
  fields_from, fields,
}

-- The rest is at least this much shorter, and the fuel is not what was missing.
abbrev Takes {ℓ} : {A : Type ℓ} → ℕ → ℕ → Result WireError (A × List ℕ) → Type 0
Takes least before (ok (a, rest)) = least + length rest ≤ before
Takes least before (err e) = e ≢ out_of_fuel

Takes-bind {ℓ κ} :
    {A : Type ℓ} {B : Type κ} (least before : ℕ) (m : Result WireError (A × List ℕ))
    (f : A × List ℕ → Result WireError (B × List ℕ))
    → Takes least before m
    → ((a : A) (rest : List ℕ) → Takes 0 (length rest) (f (a, rest)))
    → Takes least before (m >>= f)
Takes-bind {B} least before (ok (a, rest)) f h k = go (f (a, rest)) (k a rest)
  where
    go : (r : Result WireError (B × List ℕ)) → Takes 0 (length rest) r → Takes least before r
    go (ok (b, left)) i = omega (arith, h, i)
    go (err e) i = i
Takes-bind least before (err e) f h k = h

Takes-guard {ℓ} :
    {A : Type ℓ} (least before : ℕ) (passed : Bool) (e : WireError)
    (m : Result WireError (A × List ℕ))
    → e ≢ out_of_fuel
    → Takes least before m
    → Takes least before (guard passed e >> m)
Takes-guard least before true e m other h = h
Takes-guard least before false e m other h = other

Takes-read_from :
    (rounds shift result : ℕ) (bs : List ℕ) → Takes 1 (length bs) (read_from rounds shift result bs)
unfolding read_from
Takes-read_from zero shift result bs = λ e. cc
Takes-read_from (suc rounds) shift result [] = λ e. cc
Takes-read_from (suc rounds) shift result (v ∷ rest) =
    if-split (Takes 1 (suc (length rest))) (nat_eq shift 63 && ltb 1 v) _ _ (λ _ e. cc)
      (λ _.
        if-split (Takes 1 (suc (length rest))) (ltb v 128) _ _ (λ _. same (length rest))
          (λ _.
            longer (read_from rounds (shift + 7) (result + v % 128 * 2 ^ shift) rest)
              (Takes-read_from rounds (shift + 7) (result + v % 128 * 2 ^ shift) rest)))
  where
    same : (n : ℕ) → 1 + n ≤ suc n
    same n = omega arith

    longer :
        (r : Result WireError (ℕ × List ℕ))
        → Takes 1 (length rest) r
        → Takes 1 (suc (length rest)) r
    longer (ok (n, left)) h = omega (arith, h)
    longer (err e) h = h

Takes-read_varint : (bs : List ℕ) → Takes 1 (length bs) (read_varint bs)
unfolding read_varint
Takes-read_varint bs = Takes-read_from 10 0 0 bs

weaker :
    (bs : List ℕ) (r : Result WireError (ℕ × List ℕ))
    → Takes 1 (length bs) r
    → Takes 0 (length bs) r
weaker bs (ok (n, rest)) h = omega (arith, h)
weaker bs (err e) h = h

length-drop : (n : ℕ) (bs : List ℕ) → 0 + length (drop n bs) ≤ length bs
length-drop zero bs = omega arith
length-drop (suc n) [] = omega arith
length-drop (suc n) (b ∷ bs) = omega (arith, length-drop n bs)

Takes-length_of : (wire : ℕ) (bs : List ℕ) → Takes 0 (length bs) (length_of wire bs)
unfolding length_of
Takes-length_of wire bs =
    if-split (Takes 0 (length bs)) (nat_eq wire 2) _ _
      (λ _. weaker bs (read_varint bs) (Takes-read_varint bs))
      (λ _.
        if-split (Takes 0 (length bs)) (nat_eq wire 1) (ok (8, bs)) _ (λ _. all_of (length bs))
          (λ _.
            if-split (Takes 0 (length bs)) (nat_eq wire 5) (ok (4, bs)) (err bad_wire_type)
              (λ _. all_of (length bs)) (λ _ e. cc)))
  where
    all_of : (n : ℕ) → 0 + n ≤ n
    all_of n = omega arith

Takes-read_value : (wire : ℕ) (bs : List ℕ) → Takes 0 (length bs) (read_value wire bs)
unfolding read_value number_value cut_bytes
Takes-read_value wire bs =
    if-split (Takes 0 (length bs)) (nat_eq wire 0) _ _
      (λ _.
        Takes-bind 0 (length bs) (read_varint bs) number_value
          (weaker bs (read_varint bs) (Takes-read_varint bs)) (λ n rest. all_of (length rest)))
      (λ _.
        Takes-bind 0 (length bs) (length_of wire bs) cut_bytes (Takes-length_of wire bs) (λ n rest.
          Takes-guard 0 (length rest) (leb n (length rest)) truncated_field _ (λ e. cc)
            (length-drop n rest)))
  where
    all_of : (n : ℕ) → 0 + n ≤ n
    all_of n = omega arith

Takes-read_field : (bs : List ℕ) → Takes 1 (length bs) (read_field bs)
unfolding read_field after_key with_value
Takes-read_field bs =
    Takes-bind 1 (length bs) (read_varint bs) after_key (Takes-read_varint bs) (λ key rest.
      Takes-guard 0 (length rest) (is_number (key / 8)) bad_number _ (λ e. cc)
        (Takes-bind 0 (length rest) (read_value (key % 8) rest) (with_value key)
          (Takes-read_value (key % 8) rest) (λ value left. all_of (length left))))
  where
    all_of : (n : ℕ) → 0 + n ≤ n
    all_of n = omega arith

Ends-bind :
    (m : Result WireError (Field × List ℕ)) (n fuel : ℕ)
    → ((left : List ℕ) → length left ≤ fuel → fields_from fuel left ≢ err out_of_fuel)
    → Takes 1 n m
    → n ≤ suc fuel
    → (do next ← m; more ← fields_from fuel next.1; ok (next.0 ∷ more)) ≢ err out_of_fuel
Ends-bind (ok (f, left)) n fuel rest h k =
    go (fields_from fuel left) (rest left (shorter (length left) n fuel h k))
  where
    shorter : (a b c : ℕ) → 1 + a ≤ b → b ≤ suc c → a ≤ c
    shorter a b c i j = omega (arith, i, j)

    go :
        (r : Result WireError (List Field))
        → r ≢ err out_of_fuel
        → (r >>= λ more. ok (f ∷ more)) ≢ err out_of_fuel
    go (ok fs) i = λ e. cc
    go (err x) i = λ e. i cc
Ends-bind (err x) n fuel rest h k = λ e. h cc

fields_from-enough :
    (fuel : ℕ) (bs : List ℕ) → length bs ≤ fuel → fields_from fuel bs ≢ err out_of_fuel
unfolding fields_from
fields_from-enough fuel [] h = λ e. cc
fields_from-enough zero (b ∷ rest) h = absurd (omega (arith, h))
fields_from-enough (suc fuel) (b ∷ rest) h =
    Ends-bind (read_field (b ∷ rest)) (length (b ∷ rest)) fuel (fields_from-enough fuel)
      (Takes-read_field (b ∷ rest)) h

-- The loop over the fields ends on every input: as many rounds as there are bytes are enough.
pub fields_ends : (source : List ℕ) → fields source ≢ err out_of_fuel
unfolding fields
fields_ends source = fields_from-enough (length source) source (itself (length source))
  where
    itself : (n : ℕ) → n ≤ n
    itself n = omega arith
