-- ===== src/Policy/Canonical.antt =====
-- `_canonicalize_user_names`: the names that users gave are normalized, and so are the references to
-- them. `aliases` is a list of pairs, the latest first.
use proxy_gateway_plus.Prelude.{
  String, not, Option, none, some, List, [], ◌∷◌, if◌then◌else◌, ◌==◌, String_eq, contains, Result,
  ok, err, ◌>>=◌, ◌>>◌, guard, map_result,
}
use proxy_gateway_plus.Prelude.Json.{
  Json, str, arr, obj, nil, Fields, end, field, to_list, of_list, keys,
}
use proxy_gateway_plus.Policy.{
  ModelError, invalid_at, proxy_outbound_types, fetch, put, is_text, is_in, or_else, iterate,
}
use proxy_gateway_plus.Policy.Names.{Unicode, normalize_name, normalize_text}

abbrev pub Aliases : Type 0
Aliases = List (String × String)

unfoldable pub alias_of : Aliases → String → Option String
alias_of [] name = none
alias_of ((from, to) ∷ aliases) name = if from == name then some to else alias_of aliases name

abbrev pub value_or : Option String → String → String
value_or none s = s
value_or (some t) s = t

-- `for item in d.get(key, []) or []`, where items are changed in place: what is iterated over but is
-- not a list has no dicts among its items.
unfoldable pub change_each :
    (Json → Result ModelError Json) → String → Fields → Result ModelError Fields
change_each f key fs = elim (fetch fs key) [
  | arr xs ↦ do items ← map_result f (to_list xs); ok (put fs key (arr (of_list items)))
  | v ↦ do _ ← iterate (or_else v (arr nil)); ok fs
]

module _ (u : Unicode) where
  unfoldable pub remember : Aliases → Json → String → Result ModelError (String × Aliases)
  remember aliases (str value) label = do
    canonical ← normalize_text u value label
    ok (canonical, (value, canonical) ∷ aliases)
  remember aliases value label = do
    canonical ← normalize_name u value label
    ok (canonical, aliases)

  unfoldable pub rename_key :
      Aliases → Fields → String → String → Result ModelError (Fields × Aliases)
  rename_key aliases fs key label = do
    (name, aliases') ← remember aliases (fetch fs key) label
    ok (put fs key (str name), aliases')

  unfoldable pub name_outbound : Aliases → Json → Result ModelError (Json × Aliases)
  name_outbound aliases (obj outbound) = do
    is_proxy ← is_in (fetch outbound "type") proxy_outbound_types
    (outbound', aliases') ←
        if is_proxy
        then rename_key aliases outbound "tag" "outbound tag"
        else ok (outbound, aliases)
    ok (obj outbound', aliases')
  name_outbound aliases item = ok (item, aliases)

  unfoldable pub name_group : Aliases → Json → Result ModelError (Json × Aliases)
  name_group aliases (obj group) = do
    (group', aliases') ← rename_key aliases group "name" "group name"
    ok (obj group', aliases')
  name_group aliases item = ok (item, aliases)

  -- A loop that changes each item and threads the aliases.
  unfoldable pub name_each :
      (Aliases → Json → Result ModelError (Json × Aliases))
      → Aliases
      → List Json
      → Result ModelError (List Json × Aliases)
  name_each f aliases [] = ok ([], aliases)
  name_each f aliases (x ∷ xs) = do
    (y, aliases') ← f aliases x
    (ys, aliases'') ← name_each f aliases' xs
    ok (y ∷ ys, aliases'')

  -- The loop over `collection.items()` where `rebuilt` is what was built so far.
  unfoldable pub rebuild : String → Fields → Aliases → Fields → Result ModelError (Fields × Aliases)
  rebuild label rebuilt aliases end = ok (rebuilt, aliases)
  rebuild label rebuilt aliases (field raw value items) = do
    (canonical, aliases') ← remember aliases (str raw) label
    guard (not (contains canonical (keys rebuilt)))
        (invalid_at label " collides after Unicode normalization")
    rebuild label (put rebuilt canonical value) aliases' items

  unfoldable pub name_providers :
      String → String → Fields × Aliases → Result ModelError (Fields × Aliases)
  name_providers key label (mihomo, aliases) = elim (fetch mihomo key) [
    | obj collection ↦ do
      (rebuilt, aliases') ← rebuild label end aliases collection
      ok (put mihomo key (obj rebuilt), aliases')
    | _ ↦ ok (mihomo, aliases)
  ]

  module _ (aliases : Aliases) where
    unfoldable pub reference : String → Json → Result ModelError Json
    reference label (str value) = do
      normalized ← normalize_text u value label
      ok (str (value_or (alias_of aliases value) normalized))
    reference label _ = err (invalid_at label " is not a valid name")

    -- `if isinstance(d.get(key), str): d[key] = reference(d[key], label)`
    unfoldable pub refer : String → String → Fields → Result ModelError Fields
    refer key label fs = elim (fetch fs key) [
      | str value ↦ do named ← reference label (str value); ok (put fs key named)
      | _ ↦ ok fs
    ]

    unfoldable pub refer_members : Fields → Result ModelError Fields
    refer_members fs = elim (fetch fs "outbounds") [
      | arr xs ↦ do
        members ← map_result (reference "outbound member") (to_list xs)
        ok (put fs "outbounds" (arr (of_list members)))
      | _ ↦ ok fs
    ]

    unfoldable pub refer_outbound : Json → Result ModelError Json
    refer_outbound (obj outbound) = do
      named ← refer "detour" "outbound detour" outbound
      named' ← refer_members named
      ok (obj named')
    refer_outbound item = ok item

    unfoldable pub member : Json → Result ModelError Json
    member item = if is_text item "REJECT" then ok item else reference "group member" item

    unfoldable pub refer_group : Json → Result ModelError Json
    refer_group (obj group) = do
      items ← iterate (or_else (fetch group "proxies") (arr nil))
      proxies ← map_result member items
      used ← iterate (or_else (fetch group "use") (arr nil))
      uses ← map_result (reference "proxy provider name") used
      ok (obj (put (put group "proxies" (arr (of_list proxies))) "use" (arr (of_list uses))))
    refer_group item = ok item

    unfoldable pub refer_rule : Json → Result ModelError Json
    refer_rule (obj rule) = do
      rule' ← refer "outbound" "route target" rule
      rule'' ← refer "rule_set" "rule provider name" rule'
      ok (obj rule'')
    refer_rule item = ok item

    unfoldable pub refer_rule_set : Json → Result ModelError Json
    refer_rule_set (obj rule_set) = do
      named ← refer "tag" "rule provider name" rule_set
      ok (obj named)
    refer_rule_set item = ok item

    unfoldable pub refer_route : Fields → Result ModelError Fields
    refer_route route = do
      route' ← refer "final" "route target" route
      route'' ← change_each refer_rule "rules" route'
      change_each refer_rule_set "rule_set" route''

  -- The outbounds, the groups, the metadata of Mihomo and the route, with their names normalized.
  unfoldable pub canonicalize_user_names :
      List Json
      → List Json
      → Fields
      → Fields
      → Result ModelError ((List Json × List Json) × (Fields × Fields))
  canonicalize_user_names outbounds groups mihomo route = do
    (outbounds', aliases₁) ← name_each name_outbound [] outbounds
    (groups', aliases₂) ← name_each name_group aliases₁ groups
    proxies ← name_providers "proxy-providers" "proxy provider name" (mihomo, aliases₂)
    (mihomo', aliases) ← name_providers "rule-providers" "rule provider name" proxies
    outbounds'' ← map_result (refer_outbound aliases) outbounds'
    groups'' ← map_result (refer_group aliases) groups'
    route' ← refer_route aliases route
    ok ((outbounds'', groups''), (mihomo', route'))
