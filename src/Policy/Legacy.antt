-- ===== src/Policy/Legacy.antt =====
-- `_canonical_group` and `_legacy_groups`: the two records that a model of schema 1 or 2 has of its
-- groups are merged, and every disagreement is refused.
use text.Mathlib.Text.{find?}
use proxy_gateway_plus.Prelude.{
  ℕ, String, Bool, true, false, not, ◌&&◌, ◌||◌, Option, none, some, List, [], ◌∷◌, ◌++◌, map,
  if◌then◌else◌, ◌==◌, ℕ_eq, String_eq, any, length, contains, Result, ok, err, ◌>>=◌, ◌>>◌, guard,
}
use proxy_gateway_plus.Prelude.Json.{
  Json, null, bool, int, float, str, arr, obj, Items, nil, cons, Fields, end, field, ℤ, pos, negsuc,
  to_list, of_list, get, keys,
}
use proxy_gateway_plus.Policy.{
  ModelError, invalid, invalid_at, type_error, default_test_url, get_or, fetch, put, is_text, is_in,
  is_true, iterate, as_list, whole, fold_result,
}
use proxy_gateway_plus.Policy.Names.{Unicode, validate_name}
use proxy_gateway_plus.Policy.Group.{direct_tag, duration_seconds}

abbrev pub same_whole : ℤ → ℤ → Bool
same_whole (pos m) (pos n) = m == n
same_whole (negsuc m) (negsuc n) = m == n
same_whole _ _ = false

abbrev pub same_number : Option ℤ → Option ℤ → Bool
same_number (some m) (some n) = same_whole m n
same_number _ _ = false

-- Python's `==`: numbers by value, dicts whatever the order of their items. NaN, which is no value of
-- a model that is written, is equal to nothing.
unfoldable mutual
  pub same : Json → Json → Bool
  same null null = true
  same (str s) (str t) = s == t
  same (arr xs) (arr ys) = same_items xs ys
  same (obj fs) (obj gs) = length (keys fs) == length (keys gs) && same_fields fs gs
  same (bool b) w = same_number (whole (bool b)) (whole w)
  same (int n) w = same_number (some n) (whole w)
  same (float n) w = same_number (some n) (whole w)
  same _ _ = false

  pub same_items : Items → Items → Bool
  same_items nil nil = true
  same_items (cons x xs) (cons y ys) = same x y && same_items xs ys
  same_items _ _ = false

  pub same_fields : Fields → Fields → Bool
  same_fields end gs = true
  same_fields (field k v fs) gs =
      elim (get gs k) [ none ↦ false | some w ↦ same v w ] && same_fields fs gs

-- `[direct if item == "DIRECT" else item for item in items]`
abbrev pub direct_for : String → Json → Json
direct_for direct item = if is_text item "DIRECT" then str direct else item

unfoldable pub probe_fields : Unicode → Fields → Fields
probe_fields u outbound = field "url" (get_or outbound "url" (str default_test_url)) (
    field "interval" (int (duration_seconds u (get_or outbound "interval" (str "180s"))))
      (field "tolerance" (get_or outbound "tolerance" (int (pos 50))) end))

unfoldable pub canonical_group : Unicode → Fields → String → Result ModelError (String × Fields)
canonical_group u outbound direct = do
  is_group ← is_in (fetch outbound "type") ("selector" ∷ "urltest" ∷ [])
  guard is_group (invalid "not a legacy canonical group")
  name ← validate_name u (fetch outbound "tag") "group name"
  items ← iterate (get_or outbound "outbounds" (arr nil))
  let is_selector = is_text (fetch outbound "type") "selector"
  ok (
    name,
    field "name" (str name) (
        field "type" (str (if is_selector then "select" else "url-test")) (
          field "proxies" (arr (of_list (map (direct_for direct) items)))
            (field "use" (arr nil) (if is_selector then end else probe_fields u outbound)))),
  )

-- A dict of groups by name, in the order of insertion.
abbrev pub Named : Type 0
Named = List (String × Fields)

unfoldable pub lookup : Named → String → Option Fields
lookup [] name = none
lookup ((n, group) ∷ groups) name = if n == name then some group else lookup groups name

abbrev pub is_missing : Option Fields → Bool
is_missing none = true
is_missing (some group) = false

unfoldable pub add_new : Named → String × Fields → ModelError → Result ModelError Named
add_new groups (name, group) e = do
  guard (is_missing (lookup groups name)) e
  ok (groups ++ (name, group) ∷ [])

unfoldable pub add_group : Unicode → String → Named → Fields → Result ModelError Named
add_group u direct groups item = do
  group ← canonical_group u item direct
  add_new groups group (invalid_at "duplicate legacy canonical group: " group.0)

unfoldable pub add_canonical : Unicode → String → Named → Json → Result ModelError Named
add_canonical u direct groups (obj item) = do
  is_group ← is_in (fetch item "type") ("selector" ∷ "urltest" ∷ [])
  if is_group then add_group u direct groups item else ok groups
add_canonical u direct groups _ = ok groups

unfoldable pub direct_members : String → Fields → Fields
direct_members direct raw = elim (fetch raw "proxies") [
  | arr xs ↦ put raw "proxies" (arr (of_list (map (direct_for direct) (to_list xs))))
  | _ ↦ raw
]

unfoldable pub add_metadata : Unicode → String → Named → Json → Result ModelError Named
add_metadata u direct groups (obj raw) = do
  name ← validate_name u (fetch raw "name") "group name"
  add_new groups (name, direct_members direct raw)
      (invalid_at "duplicate legacy proxy group: " name)
add_metadata u direct groups _ = err (invalid "invalid legacy proxy group")

abbrev pub is_found : Option ℕ → Bool
is_found none = false
is_found (some n) = true

-- `"REJECT" in v`
abbrev pub has_reject : Json → Result ModelError Bool
has_reject (arr xs) = ok (any (λ x. is_text x "REJECT") (to_list xs))
has_reject (obj fs) = ok (contains "REJECT" (keys fs))
has_reject (str s) = ok (is_found (find? s "REJECT"))
has_reject _ = err type_error

-- `not raw.get("use") and "REJECT" not in raw.get("proxies", [])`
unfoldable pub is_representable : Fields → Result ModelError Bool
is_representable raw =
    if is_true (fetch raw "use")
    then ok false
    else (do rejects ← has_reject (get_or raw "proxies" (arr nil)); ok (not rejects))

abbrev pub same_option : Fields → Fields → String → Json → Bool
same_option raw mirror k default = same (get_or raw k default) (get_or mirror k default)

unfoldable pub same_probe : Fields → Fields → Bool
same_probe raw mirror =
    same_option raw mirror "url" (str default_test_url)
    && same_option raw mirror "interval" (int (pos 180))
    && same_option raw mirror "tolerance" (int (pos 50))

-- A group that both records have.
unfoldable pub agree : String → Fields → Fields → Result ModelError (Unit {0})
agree name mirror raw = do
  representable ← is_representable raw
  guard (same (fetch raw "type") (fetch mirror "type") && representable)
      (invalid_at "legacy policy-group representations disagree: " name)
  guard (same (get_or raw "proxies" (arr nil)) (fetch mirror "proxies"))
      (invalid_at "legacy policy-group memberships disagree: " name)
  guard (not (is_text (fetch mirror "type") "url-test") || same_probe raw mirror)
      (invalid_at "legacy policy-group probe settings disagree: " name)
  ok tt

unfoldable pub merge_mirror : ℕ → Named → String × Fields → Result ModelError Named
merge_mirror schema metadata (name, mirror) = elim (lookup metadata name) [
  | none ↦ do
    guard (not (schema == 2))
        (invalid_at "legacy canonical policy group is missing its mirror: " name)
    ok (metadata ++ (name, mirror) ∷ [])
  | some raw ↦ do agree name mirror raw; ok metadata
]

unfoldable pub check_mirrored : Named → Unit {0} → String × Fields → Result ModelError (Unit {0})
check_mirrored canonical _ (name, raw) =
    if not (is_missing (lookup canonical name)) then ok tt else (do
      editable ← is_in (fetch raw "type") ("select" ∷ "url-test" ∷ [])
      representable ← if editable then is_representable raw else ok false
      guard (not representable)
          (invalid_at "legacy editable policy group is missing its mirror: " name)
      ok tt)

abbrev pub group_values : Named → List Json
group_values [] = []
group_values ((name, group) ∷ groups) = obj group ∷ group_values groups

-- `metadata` keeps the order of insertion, which is what `order` records.
unfoldable pub legacy_groups : Unicode → Fields → Fields → ℕ → Result ModelError (List Json)
legacy_groups u model mihomo schema = do
  direct ← direct_tag model
  items ← iterate (get_or model "outbounds" (arr nil))
  canonical ← fold_result (add_canonical u direct) [] items
  raw ←
      as_list (get_or mihomo "proxy-groups" (arr nil))
        (invalid "invalid legacy proxy-groups metadata")
  metadata ← fold_result (add_metadata u direct) [] raw
  merged ← fold_result (merge_mirror schema) metadata canonical
  fold_result (check_mirrored canonical) tt merged
  ok (group_values merged)
