-- ===== src/Policy/Migrate.antt =====
-- `migrate`: a copy of a model of schema 1, 2 or 3 in the form of schema 3, validated.
use proxy_gateway_plus.Prelude.{
  ℕ, String, Bool, true, false, not, List, [], ◌∷◌, if◌then◌else◌, ◌==◌, ℕ_eq, String_eq, Result,
  ok, err, ◌>>=◌, ◌>>◌, guard,
}
use proxy_gateway_plus.Prelude.Json.{Json, int, arr, obj, Fields, end, field, pos, of_list, keys}
use proxy_gateway_plus.Policy.{
  ModelError, invalid, invalid_at, v3_mihomo_fields, get_or, fetch, put, is_in, or_else, iterate,
  as_list, as_dict, subset, is_number,
}
use proxy_gateway_plus.Policy.Names.{Unicode}
use proxy_gateway_plus.Policy.Group.{direct_tag, validate_declared_schema_shape}
use proxy_gateway_plus.Policy.Legacy.{legacy_groups}
use proxy_gateway_plus.Policy.Canonical.{canonicalize_user_names}
use proxy_gateway_plus.Policy.Validate.{validate}

-- `schema not in {1, 2, 3}`
unfoldable pub schema_of : Json → Result ModelError ℕ
schema_of v = do
  _ ← is_in v []
  if is_number v 1
      then ok 1
      else if is_number v 2
      then ok 2
      else if is_number v 3
      then ok 3
      else err (invalid "unsupported model schema")

-- `isinstance(item, dict) and item.get("type") in {"selector", "urltest"}`
unfoldable pub is_group_outbound : Json → Result ModelError Bool
is_group_outbound (obj item) = is_in (fetch item "type") ("selector" ∷ "urltest" ∷ [])
is_group_outbound _ = ok false

unfoldable pub any_group_outbound : List Json → Result ModelError Bool
any_group_outbound [] = ok false
any_group_outbound (item ∷ items) = do
  is_group ← is_group_outbound item
  if is_group then ok true else any_group_outbound items

unfoldable pub without_groups : List Json → Result ModelError (List Json)
without_groups [] = ok []
without_groups (item ∷ items) = do
  is_group ← is_group_outbound item
  rest ← without_groups items
  ok (if is_group then rest else item ∷ rest)

abbrev pub allowed_mihomo : List String
allowed_mihomo = "proxy-groups" ∷ v3_mihomo_fields

module _ (u : Unicode) where
  -- The groups, and the outbounds that stay.
  unfoldable pub current_groups : List Json → Fields → Result ModelError (List Json × List Json)
  current_groups outbounds meta = do
    groups ← iterate (fetch meta "policy-groups")
    has_groups ← any_group_outbound outbounds
    guard (not has_groups) (invalid "schema v3 forbids canonical group outbounds")
    ok (groups, outbounds)

  unfoldable pub old_groups :
      Fields → List Json → Fields → Fields → ℕ → Result ModelError (List Json × List Json)
  old_groups model outbounds meta mihomo schema = do
    guard (subset (keys meta) ("schema" ∷ "mihomo" ∷ [])) (invalid "invalid legacy PDG metadata")
    groups ← legacy_groups u model mihomo schema
    outbounds' ← without_groups outbounds
    ok (groups, outbounds')

  unfoldable pub take_groups :
      Fields → List Json → Fields → Fields → ℕ → Result ModelError (List Json × List Json)
  take_groups model outbounds meta mihomo schema =
      if schema == 3
      then current_groups outbounds meta
      else old_groups model outbounds meta mihomo schema

  -- The four fields of `normalized_mihomo`, each a dict.
  unfoldable pub normalize_mihomo : Fields → List String → Result ModelError Fields
  normalize_mihomo mihomo [] = ok end
  normalize_mihomo mihomo (key ∷ more) = do
    value ← as_dict (get_or mihomo key (obj end)) (invalid_at "invalid Mihomo metadata field: " key)
    rest ← normalize_mihomo mihomo more
    ok (field key (obj value) rest)

  abbrev pub meta_of : List Json → Fields → Json
  meta_of groups mihomo = obj (
      field "schema" (int (pos 3))
        (field "policy-groups" (arr (of_list groups)) (field "mihomo" (obj mihomo) end)))

  abbrev pub assemble : Fields → List Json → List Json → Fields → Fields → Fields
  assemble model outbounds groups mihomo route =
      put (put (put model "outbounds" (arr (of_list outbounds))) "_pdg" (meta_of groups mihomo))
        "route" (obj route)

  unfoldable pub migrate_fields : Fields → Result ModelError Fields
  migrate_fields model = do
    validate_declared_schema_shape (obj model)
    outbounds ← as_list (fetch model "outbounds") (invalid "model is missing outbounds or route")
    route ← as_dict (fetch model "route") (invalid "model is missing outbounds or route")
    _ ← direct_tag model
    meta ← as_dict (or_else (fetch model "_pdg") (obj end)) (invalid "invalid PDG metadata")
    schema ← schema_of (get_or meta "schema" (int (pos 1)))
    mihomo ← as_dict (or_else (fetch meta "mihomo") (obj end)) (invalid "invalid Mihomo metadata")
    guard (subset (keys mihomo) allowed_mihomo) (invalid "invalid Mihomo metadata field")
    (groups, kept) ← take_groups model outbounds meta mihomo schema
    normalized ← normalize_mihomo mihomo v3_mihomo_fields
    ((outbounds', groups'), (mihomo', route')) ←
        canonicalize_user_names u kept groups normalized route
    let result = assemble model outbounds' groups' mihomo' route'
    validate u (obj result)
    ok result

  unfoldable pub migrate : Json → Result ModelError Fields
  migrate (obj model) = migrate_fields model
  migrate _ = err (invalid "model root must be an object")
