-- ===== src/Profile/Hosts.antt =====
-- `canonical_ipv4_address`, `canonical_hostname` and `live_tcp_listener_ports` of
-- deploy/bot/pdgprofile.py. `address` stands for `ipaddress.ip_address`, `lower` for `str.lower`, and
-- `listing` for what `ss -H -lnt` prints, or none where it cannot be run.
use proxy_gateway_plus.Prelude.{
  ℕ, Bool, true, false, not, ◌&&◌, ◌||◌, Option, none, some, List, [], ◌∷◌, if◌then◌else◌, ◌==◌,
  ℕ_eq, List_eq, leb, length, all, contains, Result, ok, err, ◌>>=◌, ◌>>◌, guard,
}
use proxy_gateway_plus.Prelude.Texts.{Text, is_space, strip_text, splitlines, onto_first}
use proxy_gateway_plus.Profile.{ProfileError, not_canonical, bad_address, bad_listener}
use proxy_gateway_plus.Profile.Numbers.{is_digit, decimal_from, in_range}

-- `is_reserved`: unspecified, of the loopback, link-local, multicast, or the broadcast address.
pub record Address : Type 0 where
  pub version : ℕ
  pub canonical : Text
  pub is_reserved : Bool

unfoldable pub check_address : Text → Option Address → Result ProfileError Text
check_address text none = err bad_address
check_address text (some a) = do
  guard (a.version == 4 && a.canonical == text) bad_address
  guard (not a.is_reserved) bad_address
  ok text

unfoldable pub canonical_ipv4_address : (Text → Option Address) → Text → Result ProfileError Text
canonical_ipv4_address address text = do
  guard (text == strip_text text) not_canonical
  check_address text (address text)

-- `text.split(".")`
unfoldable pub split_dots : Text → List Text
split_dots [] = [] ∷ []
split_dots (c ∷ cs) = let rest = split_dots cs in if c == 46 then [] ∷ rest else onto_first c rest

abbrev pub is_alphanumeric : ℕ → Bool
is_alphanumeric c = is_digit c || (leb 97 c && leb c 122)

abbrev pub ends_with : (ℕ → Bool) → Text → Bool
ends_with test [] = false
ends_with test (c ∷ []) = test c
ends_with test (c ∷ cs) = ends_with test cs

-- `[a-z0-9](?:[a-z0-9-]{0,61}[a-z0-9])?`
unfoldable pub is_label : Text → Bool
is_label [] = false
is_label (c ∷ cs) =
    is_alphanumeric c
    && ends_with is_alphanumeric (c ∷ cs)
    && all (λ d. is_alphanumeric d || d == 45) cs
    && leb (length (c ∷ cs)) 63

abbrev pub is_address : Option Address → Bool
is_address none = false
is_address (some a) = true

unfoldable pub canonical_hostname :
    (Text → Option Address) → (Text → Text) → Text → Result ProfileError Text
canonical_hostname address lower text = do
  guard
      (text == strip_text text
        && text == lower text
        && leb (length text) 253
        && contains 46 text
        && not (ends_with (λ c. c == 46) text))
      not_canonical
  guard (all is_label (split_dots text)) not_canonical
  guard (not (is_address (address text))) bad_address
  ok text

-- `line.split()`
abbrev pub starts_word : Text → Bool
starts_word [] = false
starts_word (c ∷ cs) = not (is_space c)

unfoldable pub words : Text → List Text
words [] = []
words (c ∷ cs) =
    let rest = words cs in
    if is_space c then rest else if starts_word cs then onto_first c rest else (c ∷ []) ∷ rest

-- `re.search(r":([0-9]+)$", field)`
abbrev pub digits_of : Text → Option ℕ
digits_of [] = none
digits_of (c ∷ cs) = decimal_from 0 (c ∷ cs)

unfoldable pub port_of : Text → Option ℕ
port_of [] = none
port_of (c ∷ cs) = elim (port_of cs) [
  | some n ↦ some n
  | none ↦ if c == 58 then digits_of cs else none
]

unfoldable pub endpoint_port : List Text → Option ℕ
endpoint_port (_ ∷ _ ∷ _ ∷ endpoint ∷ _) = port_of endpoint
endpoint_port _ = none

unfoldable pub checked_port : Option ℕ → Result ProfileError ℕ
checked_port none = err bad_listener
checked_port (some n) = do guard (in_range 65535 n) bad_listener; ok n

unfoldable pub listener_ports : List Text → Result ProfileError (List ℕ)
listener_ports [] = ok []
listener_ports (line ∷ lines) = do
  port ← checked_port (endpoint_port (words line))
  ports ← listener_ports lines
  ok (port ∷ ports)

-- The set as a list
unfoldable pub live_tcp_listener_ports : Option Text → Result ProfileError (List ℕ)
live_tcp_listener_ports none = err bad_listener
live_tcp_listener_ports (some listing) = listener_ports (splitlines listing)
