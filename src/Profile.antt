-- ===== src/Profile.antt =====
-- deploy/bot/pdgprofile.py: the settings of the transparent data plane in profile.env. Here are its
-- keys, the file's reader and the switch of the platform. Texts are lists of code points.
pub mod Numbers
pub mod Resolve
pub mod Retarget
pub mod Hosts
pub mod Render
pub mod Rendered
pub mod Sorted
pub mod Sound
pub mod Updates
pub mod Others
pub mod Written
pub mod Ports
pub mod Kept
pub mod ReadBack
pub mod NumbersBack
pub mod ReadOnce
pub mod Tests
use proxy_gateway_plus.Prelude.{
  ℕ, String, Bool, true, false, not, ◌&&◌, ◌||◌, Option, none, some, List, [], ◌∷◌, ◌++◌,
  if◌then◌else◌, ◌==◌, ℕ_eq, List_eq, leb, all, map, contains, Result, ok, err, ◌>>=◌, ◌>>◌, guard,
}
use proxy_gateway_plus.Prelude.Texts.{
  Text, codes, is_space, lstrip, strip_text, splitlines, join_with, starts_with,
}

-- The texts of the messages are left out.
pub data ProfileError : Type 0 where
  bad_line bad_key duplicate_key bad_choice bad_number out_of_range bad_ports bad_mode :
      ProfileError
  no_ports_left wrong_platform overlapping_ports uncovered_mark wrong_ssh_port : ProfileError
  local_conflict live_conflict bad_network not_canonical_network : ProfileError
  wrong_setting bad_template unresolved not_canonical bad_address bad_listener : ProfileError

abbrev pub data_keys : List Text
data_keys =
    codes "PDG_QUIC_MODE"
    ∷ codes "PDG_HIJACK_TLS_TCP_PORTS"
    ∷ codes "PDG_HIJACK_HTTP_TCP_PORTS"
    ∷ codes "PDG_QUIC_MARK"
    ∷ codes "PDG_QUIC_MARK_MASK"
    ∷ codes "PDG_QUIC_ROUTE_TABLE"
    ∷ codes "PDG_QUIC_RULE_PRIORITY"
    ∷ []

abbrev pub mode_keys : List Text
mode_keys =
    codes "PDG_FIREWALL_MODE"
    ∷ codes "PDG_PLATFORM"
    ∷ codes "PDG_INTERNAL_CIDR"
    ∷ codes "PDG_SSH_PORT"
    ∷ []

abbrev pub aux_keys : List Text
aux_keys =
    codes "PDG_LOWMEM" ∷ codes "PDG_HIJACK_MODE" ∷ codes "PDG_TFO" ∷ codes "PDG_CERT_DIR" ∷ []

abbrev pub managed_keys : List Text
managed_keys = data_keys ++ mode_keys ++ aux_keys

-- A dict of texts, its first match counts.
abbrev pub Values : Type 0
Values = List (Text × Text)

abbrev pub value_of : Values → Text → Option Text
value_of [] key = none
value_of ((k, v) ∷ values) key = if k == key then some v else value_of values key

abbrev pub is_set : Option Text → Bool
is_set none = false
is_set (some v) = true

-- `line.split("=", 1)`, with `none` where there is no equals sign.
abbrev pub onto_key : ℕ → Option (Text × Text) → Option (Text × Text)
onto_key c none = none
onto_key c (some (key, value)) = some (c ∷ key, value)

abbrev pub split_equals : Text → Option (Text × Text)
split_equals [] = none
split_equals (c ∷ cs) = if c == 61 then some ([], cs) else onto_key c (split_equals cs)

-- `line.split(None, 1)[0]` of a line that does not begin with a space
abbrev pub first_word : Text → Text
first_word [] = []
first_word (c ∷ cs) = if is_space c then [] else c ∷ first_word cs

-- `[A-Z][A-Z0-9_]*`
abbrev pub is_key_code : ℕ → Bool
is_key_code n = (leb 65 n && leb n 90) || (leb 48 n && leb n 57) || n == 95

abbrev pub has_key_shape : Text → Bool
has_key_shape [] = false
has_key_shape (c ∷ cs) = leb 65 c && leb c 90 && all is_key_code cs

unfoldable pub add_value : Values → Text → Text → Text → Result ProfileError Values
add_value found raw key value = do
  guard (has_key_shape key && starts_with (lstrip raw) (key ++ 61 ∷ [])) bad_key
  guard (not (is_set (value_of found key))) duplicate_key
  ok (found ++ (key, strip_text value) ∷ [])

unfoldable pub read_pair : Values → Text → Text × Text → Result ProfileError Values
read_pair found raw (key, value) =
    if contains (strip_text key) managed_keys
    then add_value found raw (strip_text key) value
    else ok found

abbrev pub is_comment : Text → Bool
is_comment [] = true
is_comment (c ∷ cs) = c == 35

-- The body of the loop over the lines.
unfoldable pub read_line : Values → Text → Result ProfileError Values
read_line found raw =
    if is_comment (strip_text raw) then ok found else elim (split_equals (strip_text raw)) [
      | none ↦
          guard (not (contains (first_word (strip_text raw)) managed_keys)) bad_line >> ok found
      | some pair ↦ read_pair found raw pair
    ]

unfoldable pub read_lines : Values → List Text → Result ProfileError Values
read_lines found [] = ok found
read_lines found (raw ∷ lines) = elim (read_line found raw) [
  | err e ↦ err e
  | ok found' ↦ read_lines found' lines
]

-- `read_values` of the text of a file that is there; a missing file has no lines.
unfoldable pub read_values : Text → Result ProfileError Values
read_values text = read_lines [] (splitlines text)

unfoldable pub choice : Text → List Text → Result ProfileError Text
choice value choices = do guard (contains value choices) bad_choice; ok value

abbrev pub platforms : List Text
platforms = codes "android" ∷ codes "ios" ∷ []
