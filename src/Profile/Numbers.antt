-- ===== src/Profile/Numbers.antt =====
-- Numbers in texts: `_uint`, `_mark`, `parse_port_list` and `parse_quic_mode` of sb2mihomo.py, and how
-- `%d` and `0x%x` write them.
use proxy_gateway_plus.Prelude.{
  ℕ, zero, suc, ◌+◌, ◌-◌, ◌*◌, ◌/◌, ◌%◌, Bool, false, not, ◌&&◌, ◌||◌, Option, none, some, List, [],
  ◌∷◌, ◌++◌, if◌then◌else◌, ◌==◌, ℕ_eq, List_eq, leb, ltb, all, map, contains, Result, ok, err,
  ◌>>◌, guard,
}
use proxy_gateway_plus.Prelude.Texts.{Text, codes, strip_text, join_with}
use proxy_gateway_plus.Profile.{ProfileError, bad_number, out_of_range, bad_ports, bad_mode}

abbrev pub is_digit : ℕ → Bool
is_digit c = leb 48 c && leb c 57

-- The number of a text of digits, after the digits of `n`.
abbrev pub decimal_from : ℕ → Text → Option ℕ
decimal_from n [] = some n
decimal_from n (c ∷ cs) = if is_digit c then decimal_from (n * 10 + (c - 48)) cs else none

-- `0|[1-9][0-9]*`
abbrev pub uint_text : Text → Option ℕ
uint_text [] = none
uint_text (c ∷ []) = decimal_from 0 (c ∷ [])
uint_text (c ∷ cs) = if c == 48 then none else decimal_from 0 (c ∷ cs)

-- The value of a hexadecimal digit.
abbrev pub hex_digit : ℕ → Option ℕ
hex_digit c =
    if is_digit c
    then some (c - 48)
    else if leb 97 c && leb c 102
    then some (c - 87)
    else if leb 65 c && leb c 70
    then some (c - 55)
    else none

abbrev pub hex_from : ℕ → Text → Option ℕ
hex_from n [] = some n
hex_from n (c ∷ cs) = elim (hex_digit c) [ none ↦ none | some d ↦ hex_from (n * 16 + d) cs ]

-- `0[xX][0-9a-fA-F]+` or a decimal number
abbrev pub mark_text : Text → Option ℕ
mark_text (z ∷ x ∷ c ∷ cs) =
    if z == 48 && (x == 120 || x == 88) then hex_from 0 (c ∷ cs) else uint_text (z ∷ x ∷ c ∷ cs)
mark_text cs = uint_text cs

abbrev pub in_range : ℕ → ℕ → Bool
in_range maximum n = leb 1 n && leb n maximum

abbrev pub ranged : (ℕ → Bool) → Option ℕ → Result ProfileError ℕ
ranged test none = err bad_number
ranged test (some n) = guard (test n) out_of_range >> ok n

-- `_uint`, whose maximum is 0xFFFFFFFF where the source gives none
unfoldable pub uint : Text → ℕ → List ℕ → Result ProfileError ℕ
uint value maximum forbidden =
    ranged (λ n. in_range maximum n && not (contains n forbidden)) (uint_text (strip_text value))

-- `_mark`
unfoldable pub mark : Text → Result ProfileError ℕ
mark value = ranged (in_range 4294967295) (mark_text (strip_text value))

-- `[\t\r\n ]`
abbrev pub is_separator_space : ℕ → Bool
is_separator_space c = c == 9 || c == 13 || c == 10 || c == 32

-- `[0-9]+` items between separators of spaces with at most one comma: after the digits of `n`, and in
-- a separator, which may have had its comma.
unfoldable mutual
  pub ports_after : ℕ → Text → Option (List ℕ)
  ports_after n [] = some (n ∷ [])
  ports_after n (c ∷ cs) =
      let more = ports_after (n * 10 + (c - 48)) cs in
      let rest = ports_between (c == 44) cs in
      if is_digit c
      then more
      else if is_separator_space c || c == 44
      then elim rest [ none ↦ none | some ns ↦ some (n ∷ ns) ]
      else none

  pub ports_between : Bool → Text → Option (List ℕ)
  ports_between comma [] = none
  ports_between comma (c ∷ cs) =
      let more = ports_after (c - 48) cs in
      let rest = ports_between (comma || c == 44) cs in
      if is_digit c
      then more
      else if is_separator_space c || (c == 44 && not comma)
      then rest
      else none

abbrev pub ports_text : Text → Option (List ℕ)
ports_text [] = none
ports_text (c ∷ cs) = if is_digit c then ports_after (c - 48) cs else none

-- `sorted(set(ports))`
abbrev pub insert_port : ℕ → List ℕ → List ℕ
insert_port n [] = n ∷ []
insert_port n (m ∷ ms) =
    let rest = insert_port n ms in
    if ltb n m then n ∷ m ∷ ms else if n == m then m ∷ ms else m ∷ rest

abbrev pub sorted_set : List ℕ → List ℕ
sorted_set [] = []
sorted_set (n ∷ ns) = insert_port n (sorted_set ns)

abbrev pub has_ports : List ℕ → Bool
has_ports [] = false
has_ports ns = all (in_range 65535) ns

-- A text, or a list of numbers
pub data PortValue : Type 0 where
  text : Text → PortValue
  numbers : List ℕ → PortValue

unfoldable pub checked_ports : Option (List ℕ) → Result ProfileError (List ℕ)
checked_ports none = err bad_ports
checked_ports (some ns) = do guard (has_ports ns) bad_ports; ok (sorted_set ns)

-- `parse_port_list`
unfoldable pub parse_port_list : PortValue → Result ProfileError (List ℕ)
parse_port_list (text value) = checked_ports (ports_text (strip_text value))
parse_port_list (numbers ns) = checked_ports (some ns)

abbrev pub quic_modes : List Text
quic_modes = codes "tproxy" ∷ codes "reject" ∷ []

-- `parse_quic_mode`
unfoldable pub parse_quic_mode : Text → Result ProfileError Text
parse_quic_mode mode = do
  guard (contains (strip_text mode) quic_modes) bad_mode
  ok (strip_text mode)

-- `a & b` of numbers of so many bits
unfoldable pub bits_and : ℕ → ℕ → ℕ → ℕ
bits_and zero a b = 0
bits_and (suc w) a b = a % 2 * (b % 2) + 2 * bits_and w (a / 2) (b / 2)

-- `str(n)` of a number below ten to the fuel
unfoldable pub digits : ℕ → ℕ → Text
digits zero n = []
digits (suc fuel) n =
    let front = digits fuel (n / 10) in
    if ltb n 10 then (48 + n) ∷ [] else front ++ (48 + n % 10) ∷ []

abbrev pub hex_code : ℕ → ℕ
hex_code d = if ltb d 10 then 48 + d else 87 + d

unfoldable pub hex_digits : ℕ → ℕ → Text
hex_digits zero n = []
hex_digits (suc fuel) n =
    let front = hex_digits fuel (n / 16) in
    if ltb n 16 then hex_code n ∷ [] else front ++ hex_code (n % 16) ∷ []

-- `"%d" % n` and `"0x%x" % n` of numbers below two to the 32nd
abbrev pub decimal_text : ℕ → Text
decimal_text n = digits 10 n

abbrev pub hex_text : ℕ → Text
hex_text n = 48 ∷ 120 ∷ hex_digits 8 n

-- `",".join(map(str, ports))`
abbrev pub ports_line : List ℕ → Text
ports_line ns = join_with (44 ∷ []) (map decimal_text ns)
