-- ===== src/Profile/Retarget.antt =====
-- `retarget_platform_text`: the switch of a profile to another platform.
use proxy_gateway_plus.Prelude.{
  ℕ, not, Option, none, some, List, [], ◌∷◌, ◌++◌, if◌then◌else◌, ◌==◌, ℕ_eq, List_eq, Option_eq,
  contains, Result, ok, ◌>>=◌, ◌>>◌, guard,
}
use proxy_gateway_plus.Prelude.Texts.{Text, codes, lstrip, splitlines, join_with}
use proxy_gateway_plus.Profile.{
  ProfileError, no_ports_left, Values, value_of, split_equals, read_values, choice, platforms,
}
use proxy_gateway_plus.Profile.Numbers.{text, parse_port_list, sorted_set, ports_line}
use proxy_gateway_plus.Profile.Resolve.{default_tls_ports, setting}

abbrev pub gms_ports : List ℕ
gms_ports = 5228 ∷ 5229 ∷ 5230 ∷ []

abbrev pub remove_ports : List ℕ → List ℕ → List ℕ
remove_ports unwanted [] = []
remove_ports unwanted (n ∷ ns) =
    let rest = remove_ports unwanted ns in if contains n unwanted then rest else n ∷ rest

-- The ports for TLS that the profile has, or those of the platform.
unfoldable pub stored_ports : Text → Option Text → Result ProfileError (List ℕ)
stored_ports target none = ok (default_tls_ports target)
stored_ports target (some v) = parse_port_list (text v)

-- The ports for TLS on the other platform.
unfoldable pub retarget_ports : Text → Option Text → Result ProfileError (List ℕ)
retarget_ports target stored = do
  ports ← stored_ports target stored
  let ports' =
      if target == codes "ios"
      then remove_ports gms_ports ports
      else sorted_set (ports ++ gms_ports)
  guard (not (ports' == [])) no_ports_left
  ok ports'

-- `updates`, and the lines of the profile with each updated key once, where it first stood or at the
-- end. `seen` are the keys that are written.
abbrev pub key_of : Text → Text
key_of line = elim (split_equals (lstrip line)) [ none ↦ [] | some (key, value) ↦ key ]

-- What becomes of a line with the value of its key among the updates.
abbrev pub updated : List Text → Text → Option Text → List Text × List Text
updated seen line none = (line ∷ [], seen)
updated seen line (some v) =
    if contains (key_of line) seen
    then ([], seen)
    else (setting (key_of line) v ∷ [], key_of line ∷ seen)

unfoldable pub update_line : Values → List Text → Text → List Text × List Text
update_line updates seen line = updated seen line (value_of updates (key_of line))

unfoldable pub missing_lines : Values → List Text → List Text
missing_lines [] seen = []
missing_lines ((key, value) ∷ updates) seen =
    let rest = missing_lines updates seen in
    if contains key seen then rest else setting key value ∷ rest

unfoldable pub update_lines : Values → List Text → List Text → List Text
update_lines updates seen [] = missing_lines updates seen
update_lines updates seen (line ∷ lines) =
    let (written, seen') = update_line updates seen line in
    written ++ update_lines updates seen' lines

abbrev pub updates_of : Text → List ℕ → Values
updates_of target ports =
    (codes "PDG_PLATFORM", target) ∷ (codes "PDG_HIJACK_TLS_TCP_PORTS", ports_line ports) ∷ []

-- `retarget_platform_text`, as the lines of the candidate
unfoldable pub retarget_lines : Text → Text → Result ProfileError (List Text)
retarget_lines profile target = do
  target' ← choice target platforms
  values ← read_values profile
  ports ← retarget_ports target' (value_of values (codes "PDG_HIJACK_TLS_TCP_PORTS"))
  ok (update_lines (updates_of target' ports) [] (splitlines profile))

unfoldable pub retarget_platform_text : Text → Text → Result ProfileError Text
retarget_platform_text profile target = do
  lines ← retarget_lines profile target
  ok (join_with (10 ∷ []) lines ++ 10 ∷ [])
