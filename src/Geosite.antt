-- ===== src/Geosite.antt =====
-- deploy/bot/parse-geosite.py: its reader of protobuf messages, over bytes as numbers.
pub mod Varint
pub mod Fields
pub mod Consumed
pub mod Lists
pub mod Picked
pub mod Tests
use proxy_gateway_plus.Prelude.{
  ℕ, zero, suc, ◌+◌, ◌*◌, ◌/◌, ◌%◌, ◌^◌, Bool, true, false, not, ◌&&◌, List, [], ◌∷◌, if◌then◌else◌,
  ltb, leb, nat_eq, length, take, drop, Result, ok, err, ◌>>=◌, ◌>>◌, guard,
}

pub data WireError : Type 0 where
  truncated_varint varint_too_long bad_number bad_wire_type truncated_field out_of_fuel : WireError

-- `rounds` of the loop over the shifts 0, 7, …, 63 are left. The bits that are added stand above
-- those of `result`, so that `|` is `+`.
unfoldable pub read_from : ℕ → ℕ → ℕ → List ℕ → Result WireError (ℕ × List ℕ)
read_from zero shift result bytes = err varint_too_long
read_from (suc rounds) shift result [] = err truncated_varint
read_from (suc rounds) shift result (value ∷ rest) =
    let result' = result + value % 128 * 2 ^ shift in
    let more = read_from rounds (shift + 7) result' rest in
    if nat_eq shift 63 && ltb 1 value
    then err varint_too_long
    else if ltb value 128
    then ok (result', rest)
    else more

-- `_rv`
unfoldable pub read_varint : List ℕ → Result WireError (ℕ × List ℕ)
read_varint = read_from 10 0 0

pub data Value : Type 0 where
  varint : ℕ → Value
  raw : List ℕ → Value

pub record Field : Type 0 where
  pub number : ℕ
  pub wire : ℕ
  pub value : Value

-- The length of a value that is not a number, and what follows it.
unfoldable pub length_of : ℕ → List ℕ → Result WireError (ℕ × List ℕ)
length_of wire rest =
    if nat_eq wire 2
    then read_varint rest
    else if nat_eq wire 1
    then ok (8, rest)
    else if nat_eq wire 5
    then ok (4, rest)
    else err bad_wire_type

unfoldable pub cut_bytes : ℕ × List ℕ → Result WireError (Value × List ℕ)
cut_bytes (len, rest) = do
  guard (leb len (length rest)) truncated_field
  ok (raw (take len rest), drop len rest)

unfoldable pub number_value : ℕ × List ℕ → Result WireError (Value × List ℕ)
number_value (n, rest) = ok (varint n, rest)

unfoldable pub read_value : ℕ → List ℕ → Result WireError (Value × List ℕ)
read_value wire rest =
    if nat_eq wire 0 then read_varint rest >>= number_value else length_of wire rest >>= cut_bytes

unfoldable pub is_number : ℕ → Bool
is_number n = leb 1 n && ltb n (2 ^ 29)

unfoldable pub with_value : ℕ → Value × List ℕ → Result WireError (Field × List ℕ)
with_value key (value, rest) = ok (record { number = key / 8; wire = key % 8; value = value }, rest)

unfoldable pub after_key : ℕ × List ℕ → Result WireError (Field × List ℕ)
after_key (key, rest) = do
  guard (is_number (key / 8)) bad_number
  read_value (key % 8) rest >>= with_value key

-- One round of the loop of `_fields`.
unfoldable pub read_field : List ℕ → Result WireError (Field × List ℕ)
read_field source = read_varint source >>= after_key

-- `_fields`, on fuel: each round takes at least one byte.
unfoldable pub fields_from : ℕ → List ℕ → Result WireError (List Field)
fields_from fuel [] = ok []
fields_from zero (b ∷ rest) = err out_of_fuel
fields_from (suc fuel) (b ∷ rest) = do
  next ← read_field (b ∷ rest)
  more ← fields_from fuel next.1
  ok (next.0 ∷ more)

unfoldable pub fields : List ℕ → Result WireError (List Field)
fields source = fields_from (length source) source
