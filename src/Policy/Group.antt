-- ===== src/Policy/Group.antt =====
-- What a model says of its direct outbound, of its groups and of durations: `direct_tag`,
-- `policy_groups`, `validate_declared_schema_shape`, `_duration_seconds` and `_validate_group`.
use Prim.Native.Char.{code}
use proxy_gateway_plus.Prelude.{
  ℕ, ◌+◌, ◌*◌, String, Bool, true, false, not, ◌&&◌, ◌||◌, Option, none, some, List, [], ◌∷◌, ◌++◌,
  if◌then◌else◌, ◌==◌, ℕ_eq, String_eq, leb, all, length, Result, ok, err, ◌>>=◌, ◌>>◌, guard,
}
use proxy_gateway_plus.Prelude.Texts.{codes, is_space}
use proxy_gateway_plus.Prelude.Json.{
  Json, bool, int, str, arr, obj, nil, Fields, ℤ, pos, negsuc, to_list, get, keys,
}
use proxy_gateway_plus.Policy.{
  ModelError, invalid, invalid_at, v3_meta_fields, v3_mihomo_fields, default_test_url, get_or,
  fetch, is_text, is_in, iterate, same_set, subset, distinct, is_current,
}
use proxy_gateway_plus.Policy.Names.{Unicode, validate_name, tag}

-- The items that are dicts with `type == "direct"`.
unfoldable pub direct_items : List Json → List Fields
direct_items [] = []
direct_items (obj fs ∷ items) =
    let rest = direct_items items in if is_text (fetch fs "type") "direct" then fs ∷ rest else rest
direct_items (_ ∷ items) = direct_items items

unfoldable pub only_direct : List Fields → Result ModelError String
only_direct (fs ∷ []) = tag (fetch fs "tag") "direct tag"
only_direct _ = err (invalid "model must contain exactly one direct outbound")

unfoldable pub direct_tag : Fields → Result ModelError String
direct_tag model = do
  items ← iterate (get_or model "outbounds" (arr nil))
  only_direct (direct_items items)

abbrev pub list_or_empty : Json → List Json
list_or_empty (arr xs) = to_list xs
list_or_empty _ = []

abbrev pub groups_of_meta : Json → List Json
groups_of_meta (obj meta) = list_or_empty (fetch meta "policy-groups")
groups_of_meta _ = []

unfoldable pub policy_groups : Fields → List Json
policy_groups model = groups_of_meta (fetch model "_pdg")

abbrev pub is_dict : Json → Bool
is_dict (obj fs) = true
is_dict _ = false

abbrev pub is_list : Json → Bool
is_list (arr xs) = true
is_list _ = false

unfoldable pub has_mihomo_shape : Json → Bool
has_mihomo_shape (obj mihomo) =
    same_set (keys mihomo) v3_mihomo_fields && all (λ k. is_dict (fetch mihomo k)) v3_mihomo_fields
has_mihomo_shape _ = false

unfoldable pub declared_shape : Fields → Result ModelError (Unit {0})
declared_shape meta = do
  guard (same_set (keys meta) v3_meta_fields && is_list (fetch meta "policy-groups"))
      (invalid "declared schema v3 metadata has an invalid shape")
  guard (has_mihomo_shape (fetch meta "mihomo"))
      (invalid "declared schema v3 Mihomo metadata has an invalid shape")
  ok tt

unfoldable pub validate_declared_meta : Json → Result ModelError (Unit {0})
validate_declared_meta (obj meta) =
    if is_current (fetch meta "schema") then declared_shape meta else ok tt
validate_declared_meta _ = ok tt

unfoldable pub validate_declared_schema_shape : Json → Result ModelError (Unit {0})
validate_declared_schema_shape (obj model) = validate_declared_meta (fetch model "_pdg")
validate_declared_schema_shape _ = ok tt

-- `{"": 1, "s": 1, "m": 60, "h": 3600}`
abbrev pub unit_seconds : String → Option ℕ
unit_seconds s =
    if s == "" || s == "s"
    then some 1
    else if s == "m"
    then some 60
    else if s == "h"
    then some 3600
    else none

-- `(\d+)([smh]?)` where `seen` tells whether a digit was read, and `n` is the number so far.
abbrev pub duration_from : (ℕ → Option ℕ) → Bool → ℕ → String → Option ℕ
duration_from decimal seen n String.[] = if seen then some n else none
duration_from decimal seen n (String.◌∷◌ c s) = elim (decimal (code c)) [
  | some d ↦ duration_from decimal true (n * 10 + d) s
  | none ↦ elim (unit_seconds (String.◌∷◌ c s)) [
    | none ↦ none
    | some k ↦ if seen then some (n * k) else none
  ]
]

abbrev pub duration_or_failure : Option ℕ → ℤ
duration_or_failure none = negsuc 0
duration_or_failure (some n) = pos n

unfoldable pub duration_seconds : Unicode → Json → ℤ
duration_seconds u (int n) = n
duration_seconds u (str s) = duration_or_failure (duration_from u.decimal false 0 s)
duration_seconds u _ = negsuc 0

-- A group's name, `proxies` and `use`.
pub record Part : Type 0 where
  pub name : String
  pub proxies : List String
  pub uses : List String

abbrev pub group_types : List String
group_types = "select" ∷ "url-test" ∷ "fallback" ∷ "load-balance" ∷ []

abbrev pub group_common_fields : List String
group_common_fields = "name" ∷ "type" ∷ "proxies" ∷ "use" ∷ []

-- `GROUP_FIELDS`
abbrev pub group_fields : String → List String
group_fields kind =
    group_common_fields
    ++ "lazy"
      ∷ "disable-udp"
      ∷ "hidden"
      ∷ (if kind == "select"
          then []
          else "url"
            ∷ "interval"
            ∷ (if kind == "url-test"
                then "tolerance" ∷ []
                else if kind == "load-balance"
                then "strategy" ∷ []
                else []))

abbrev pub has_group_fields : Json → Fields → Bool
has_group_fields (str kind) group = subset (keys group) (group_fields kind)
has_group_fields _ group = false

-- The items, if all of them are texts.
unfoldable pub all_texts : List Json → Option (List String)
all_texts [] = some []
all_texts (str s ∷ xs) = elim (all_texts xs) [ none ↦ none | some ss ↦ some (s ∷ ss) ]
all_texts (_ ∷ xs) = none

abbrev pub text_list : Json → Option (List String)
text_list (arr xs) = all_texts (to_list xs)
text_list _ = none

-- `len(xs) == len(set(xs))`
unfoldable pub is_unique : List String → Bool
is_unique xs = length xs == length (distinct xs)

abbrev pub is_empty : List String → Bool
is_empty [] = true
is_empty _ = false

unfoldable pub member_lists : Fields → ModelError → Result ModelError (List String × List String)
member_lists group e = elim (text_list (get_or group "proxies" (arr nil))) [
  | none ↦ err e
  | some proxies ↦ elim (text_list (get_or group "use" (arr nil))) [
    | none ↦ err e
    | some uses ↦ do
      guard (is_unique proxies && is_unique uses && not (is_empty proxies && is_empty uses)) e
      ok (proxies, uses)
  ]
]

-- An option passes if it is absent or its value passes.
abbrev pub option_passes : (Json → Bool) → Option Json → Bool
option_passes test none = true
option_passes test (some v) = test v

abbrev pub is_bool : Json → Bool
is_bool (bool b) = true
is_bool _ = false

abbrev pub is_between : ℕ → ℕ → Json → Bool
is_between low high (int (pos n)) = leb low n && leb n high
is_between low high _ = false

-- Under `re.I` the letter s is also U+017F.
abbrev pub is_letter : ℕ → ℕ → Bool
is_letter lower n = n == lower || n + 32 == lower || (lower == 115 && n == 383)

abbrev pub all_url_codes : List ℕ → Bool
all_url_codes = all (λ n. not (is_space n) && not (n == 0))

abbrev pub after_scheme : List ℕ → Bool
after_scheme (colon ∷ slash ∷ slash' ∷ c ∷ rest) =
    colon == 58 && slash == 47 && slash' == 47 && all_url_codes (c ∷ rest)
after_scheme _ = false

abbrev pub after_http : List ℕ → Bool
after_http [] = false
after_http (c ∷ rest) = after_scheme (c ∷ rest) || (is_letter 115 c && after_scheme rest)

abbrev pub is_url_codes : List ℕ → Bool
is_url_codes (h ∷ t ∷ t' ∷ p ∷ rest) =
    is_letter 104 h && is_letter 116 t && is_letter 116 t' && is_letter 112 p && after_http rest
is_url_codes _ = false

-- `https?://[^\s\x00]+`
abbrev pub is_url : Json → Bool
is_url (str s) = is_url_codes (codes s)
is_url _ = false

unfoldable pub check_strategy : String → Option Json → Result ModelError (Unit {0})
check_strategy name none = ok tt
check_strategy name (some v) = do
  listed ← is_in v ("consistent-hashing" ∷ "round-robin" ∷ "sticky-sessions" ∷ [])
  guard listed (invalid_at "policy group strategy is invalid: " name)
  ok tt

unfoldable pub check_options : Fields → String → Result ModelError (Unit {0})
check_options group name = do
  guard (all (λ k. option_passes is_bool (get group k)) ("lazy" ∷ "disable-udp" ∷ "hidden" ∷ []))
      (invalid_at "policy group boolean option is invalid: " name)
  let is_select = is_text (fetch group "type") "select"
  guard (is_select || is_url (get_or group "url" (str default_test_url)))
      (invalid_at "policy group URL is invalid: " name)
  guard (is_select || is_between 1 604800 (get_or group "interval" (int (pos 180))))
      (invalid_at "policy group interval is invalid: " name)
  guard (option_passes (is_between 0 65535) (get group "tolerance"))
      (invalid_at "policy group tolerance is invalid: " name)
  check_strategy name (get group "strategy")

unfoldable pub validate_group : Unicode → Json → Result ModelError Part
validate_group u (obj group) = do
  name ← validate_name u (fetch group "name") "group name"
  known ← is_in (fetch group "type") group_types
  guard (known && has_group_fields (fetch group "type") group)
      (invalid_at "policy group contains unsupported runtime fields for its type: " name)
  (proxies, uses) ←
      member_lists group (invalid_at "policy group members/providers are invalid: " name)
  check_options group name
  ok (record { name = name; proxies = proxies; uses = uses })
validate_group u _ = err (invalid "policy group must be an object")
