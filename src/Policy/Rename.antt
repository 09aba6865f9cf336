-- ===== src/Policy/Rename.antt =====
-- What the rest of the program asks of a model and changes in it: `routable_tags`, `model_namespace`,
-- `validate_ruleset_namespace`, `rename_references`, `rebind_direct`, `rebind_direct_preserve_schema`.
pub mod References
pub mod Items
pub mod Put
pub mod Renamed
use Prim.Native.String.{compare, ◌++◌ as text_append}
use Prim.Native.Nat.{Ordering}
use proxy_gateway_plus.Prelude.{
  ℕ, String, Bool, true, false, not, ◌&&◌, ◌||◌, Option, none, some, List, [], ◌∷◌, ◌++◌, map,
  if◌then◌else◌, ◌==◌, ℕ_eq, String_eq, length, contains, Result, ok, err, ◌>>=◌, ◌>>◌, guard,
  map_result,
}
use proxy_gateway_plus.Prelude.Json.{
  Json, null, str, arr, obj, nil, Fields, end, field, to_list, of_list, get, keys,
}
use proxy_gateway_plus.Policy.{
  ModelError, invalid, invalid_at, type_error, attribute_error, key_error, reserved_targets,
  routable_outbound_types, get_or, fetch, put, is_text, is_in, or_else, iterate, as_list, distinct,
}
use proxy_gateway_plus.Policy.Names.{Unicode, normalize_name, tag}
use proxy_gateway_plus.Policy.Group.{direct_tag, policy_groups}
use proxy_gateway_plus.Policy.Validate.{keep_if, validate}
use proxy_gateway_plus.Policy.Migrate.{migrate}

-- `d[k]`
abbrev pub item_at : Fields → String → Result ModelError Json
item_at fs k = elim (get fs k) [ none ↦ err key_error | some v ↦ ok v ]

abbrev pub if_text : Bool → Json → List Json
if_text true (str s) = str s ∷ []
if_text _ v = []

unfoldable pub exits_of : Json → Result ModelError (List Json)
exits_of (obj outbound) = do
  is_routable ← is_in (fetch outbound "type") routable_outbound_types
  ok (if_text is_routable (fetch outbound "tag"))
exits_of item = ok []

-- The values that a loop finds in each item, one after the other.
unfoldable pub gather :
    (Json → Result ModelError (List Json)) → List Json → Result ModelError (List Json)
gather f [] = ok []
gather f (x ∷ xs) = do found ← f x; rest ← gather f xs; ok (found ++ rest)

-- `group["name"]`
abbrev pub value_at : String → Json → Result ModelError Json
value_at key (obj fs) = item_at fs key
value_at key _ = err type_error

unfoldable pub routable_tags_unchecked : Fields → Result ModelError (List Json)
routable_tags_unchecked model = do
  value ← item_at model "outbounds"
  outbounds ← iterate value
  exits ← gather exits_of outbounds
  groups ← map_result (value_at "name") (policy_groups model)
  ok (exits ++ groups)

unfoldable pub routable_tags : Unicode → Json → Result ModelError (List Json)
routable_tags u model = do migrated ← migrate u model; routable_tags_unchecked migrated

abbrev pub names_in : List Json → List String
names_in [] = []
names_in (str s ∷ vs) = s ∷ names_in vs
names_in (_ ∷ vs) = names_in vs

-- `d.get(k)` of what may not be a dict
abbrev pub attribute : String → Json → Result ModelError Json
attribute key (obj fs) = ok (fetch fs key)
attribute key _ = err attribute_error

abbrev pub key_names : Json → List String
key_names (obj fs) = keys fs
key_names _ = []

abbrev pub providers_of_mihomo : Json → String → List String
providers_of_mihomo (obj mihomo) key = key_names (fetch mihomo key)
providers_of_mihomo _ key = []

abbrev pub providers_of_meta : Json → String → List String
providers_of_meta (obj meta) key = providers_of_mihomo (fetch meta "mihomo") key
providers_of_meta _ key = []

-- `set(model["_pdg"]["mihomo"][key])` of a migrated model
abbrev pub provider_names : Fields → String → List String
provider_names model key = providers_of_meta (fetch model "_pdg") key

unfoldable pub model_namespace : Unicode → Json → Result ModelError (List String)
model_namespace u model = do
  canonical ← migrate u model
  outbounds ← iterate (fetch canonical "outbounds")
  tags ← map_result (value_at "tag") outbounds
  groups ← map_result (value_at "name") (policy_groups canonical)
  ok (
      distinct (
        names_in tags
        ++ names_in groups
        ++ provider_names canonical "proxy-providers"
        ++ provider_names canonical "rule-providers"))

-- `sorted` of a set, and `", ".join`
abbrev pub insert : String → List String → List String
insert s [] = s ∷ []
insert s (t ∷ ts) = elim (compare s t) [ Ordering.gt ↦ t ∷ insert s ts | _ ↦ s ∷ t ∷ ts ]

abbrev pub sort : List String → List String
sort [] = []
sort (s ∷ ss) = insert s (sort ss)

abbrev pub join : List String → String
join [] = ""
join (s ∷ []) = s
join (s ∷ ss) = text_append s (text_append ", " (join ss))

-- `names` is a list where the source also takes tuples and sets.
unfoldable pub validate_ruleset_namespace : Unicode → Json → Json → Result ModelError (Unit {0})
validate_ruleset_namespace u model names = do
  items ← as_list names (invalid "ruleset provider names are invalid")
  canonical ← map_result (λ name. normalize_name u name "ruleset provider name") items
  let checked = distinct canonical
  guard (length checked == length canonical)
      (invalid "ruleset provider names collide after Unicode normalization")
  namespace ← model_namespace u model
  let collisions = sort (keep_if (λ name. contains name (namespace ++ reserved_targets)) checked)
  guard (length collisions == 0)
      (invalid_at "ruleset provider names 与 Mihomo 命名空间同名: " (join collisions))
  ok tt

-- `model["_pdg"]["policy-groups"]` holds the changed groups.
abbrev pub put_groups_at : Json → Fields → List Json → Fields
put_groups_at (obj meta) model groups =
    put model "_pdg" (obj (put meta "policy-groups" (arr (of_list groups))))
put_groups_at _ model groups = model

abbrev pub put_groups : Fields → List Json → Fields
put_groups model groups = put_groups_at (fetch model "_pdg") model groups

module _ (old new : String) where
  -- `new if item == old else item`
  abbrev pub renamed : Json → Json
  renamed item = if is_text item old then str new else item

  unfoldable pub rename_group_name : Bool → Fields → Fields
  rename_group_name rename_group group =
      if rename_group && is_text (fetch group "name") old then put group "name" (str new) else group

  unfoldable pub rename_members : Fields → Result ModelError Fields
  rename_members group = do
    items ← iterate (get_or group "proxies" (arr nil))
    ok (put group "proxies" (arr (of_list (map renamed items))))

  unfoldable pub rename_in_group : Bool → Json → Result ModelError Json
  rename_in_group rename_group (obj group) = do
    group' ← rename_members (rename_group_name rename_group group)
    ok (obj group')
  rename_in_group rename_group _ = err attribute_error

  -- `if d.get(key) == old: d[key] = new`
  abbrev pub rename_at : String → Fields → Fields
  rename_at key fs = if is_text (fetch fs key) old then put fs key (str new) else fs

  unfoldable pub rename_rule : Json → Json
  rename_rule (obj rule) = obj (rename_at "outbound" rule)
  rename_rule item = item

  abbrev pub rename_rules : Json → Json
  rename_rules (arr rules) = arr (of_list (map rename_rule (to_list rules)))
  rename_rules v = v

  unfoldable pub rename_in_route : Json → Result ModelError Json
  rename_in_route (obj route) = do
    let final = rename_at "final" route
    _ ← iterate (get_or final "rules" (arr nil))
    ok (
        obj (elim (get final "rules") [
          | none ↦ final
          | some rules ↦ put final "rules" (rename_rules rules)
        ]))
  rename_in_route _ = err attribute_error

  unfoldable pub rename_in_groups : Bool → Fields → Result ModelError Fields
  rename_in_groups rename_group model = elim (policy_groups model) [
    | [] ↦ ok model
    | group ∷ groups ↦ do
      renamed_groups ← map_result (rename_in_group rename_group) (group ∷ groups)
      ok (put_groups model renamed_groups)
  ]

  unfoldable pub rename_references : Bool → Fields → Result ModelError Fields
  rename_references rename_group model = do
    model' ← rename_in_groups rename_group model
    elim (get model' "route") [
      | none ↦ ok model'
      | some route ↦ do route' ← rename_in_route route; ok (put model' "route" route')
    ]

unfoldable pub rebind_outbound : String → Json → Json
rebind_outbound new (obj outbound) =
    obj
      (if is_text (fetch outbound "type") "direct" then put outbound "tag" (str new) else outbound)
rebind_outbound new item = item

-- The tags of the outbounds but `old`, and the names of groups and providers.
unfoldable pub occupied_names : String → Fields → Result ModelError (List String)
occupied_names old model = do
  outbounds ← iterate (fetch model "outbounds")
  tags ← map_result (attribute "tag") outbounds
  groups ← map_result (attribute "name") (policy_groups model)
  ok (
      keep_if (λ name. not (name == old)) (names_in tags)
      ++ names_in groups
      ++ provider_names model "proxy-providers"
      ++ provider_names model "rule-providers")

module _ (u : Unicode) where
  unfoldable pub rebind_to : Fields → String → String → Result ModelError Fields
  rebind_to model old new = do
    guard (not (contains new reserved_targets))
        (invalid "direct tag collides with a reserved target")
    occupied ← occupied_names old model
    guard (not (contains new occupied)) (invalid "direct tag collides with an existing model name")
    outbounds ← iterate (fetch model "outbounds")
    let rebound = put model "outbounds" (arr (of_list (map (rebind_outbound new) outbounds)))
    result ← rename_references old new false rebound
    validate u (obj result)
    ok result

  unfoldable pub rebind_direct : Json → Json → Result ModelError Fields
  rebind_direct model value = do
    result ← migrate u model
    old ← direct_tag result
    new ← tag value "direct tag"
    if new == old then ok result else rebind_to result old new
