-- ===== src/Policy/Rebind.antt =====
-- `rebind_direct_preserve_schema`: the direct tag of a model is replaced in the form that the model
-- has on the disk, and migration is asked whether the result is valid.
use proxy_gateway_plus.Prelude.{
  String, [], ◌∷◌, map, if◌then◌else◌, ◌==◌, String_eq, Result, ok, err, ◌>>=◌,
}
use proxy_gateway_plus.Prelude.Json.{Json, str, arr, obj, nil, Fields, of_list}
use proxy_gateway_plus.Policy.{
  ModelError, invalid, attribute_error, get_or, fetch, put, is_text, is_in, is_true, iterate,
}
use proxy_gateway_plus.Policy.Names.{Unicode, tag}
use proxy_gateway_plus.Policy.Group.{direct_tag}
use proxy_gateway_plus.Policy.Canonical.{change_each}
use proxy_gateway_plus.Policy.Migrate.{migrate}
use proxy_gateway_plus.Policy.Rename.{
  renamed, rename_members, rename_at, rename_rule, rebind_direct,
}

module _ (old new : String) where
  unfoldable pub rebind_members : Fields → Result ModelError Fields
  rebind_members outbound = do
    is_group ← is_in (fetch outbound "type") ("selector" ∷ "urltest" ∷ [])
    if is_group
        then (do
          items ← iterate (get_or outbound "outbounds" (arr nil))
          ok (put outbound "outbounds" (arr (of_list (map (renamed old new) items)))))
        else ok outbound

  unfoldable pub rebind_item : Json → Result ModelError Json
  rebind_item (obj outbound) = do
    let rebound =
        if is_text (fetch outbound "type") "direct" then put outbound "tag" (str new) else outbound
    outbound' ← rebind_members rebound
    ok (obj outbound')
  rebind_item item = ok item

  unfoldable pub rebind_group : Json → Result ModelError Json
  rebind_group (obj group) = do group' ← rename_members old new group; ok (obj group')
  rebind_group item = ok item

  -- `for group in d.get(key, []) or []`
  unfoldable pub rebind_groups : String → Fields → Result ModelError Fields
  rebind_groups key fs = change_each rebind_group key fs

  unfoldable pub rebind_mihomo : Fields → Result ModelError Fields
  rebind_mihomo meta = elim (fetch meta "mihomo") [
    | obj mihomo ↦ do
      mihomo' ← rebind_groups "proxy-groups" mihomo
      ok (put meta "mihomo" (obj mihomo'))
    | _ ↦ ok meta
  ]

  unfoldable pub rebind_meta : Fields → Result ModelError Fields
  rebind_meta model = elim (fetch model "_pdg") [
    | obj meta ↦ do
      meta' ← rebind_groups "policy-groups" meta
      meta'' ← rebind_mihomo meta'
      ok (put model "_pdg" (obj meta''))
    | _ ↦ ok model
  ]

  unfoldable pub rebind_rule : Json → Result ModelError Json
  rebind_rule rule = ok (rename_rule old new rule)

  unfoldable pub rebind_route : Fields → Result ModelError Fields
  rebind_route model = elim (fetch model "route") [
    | obj route ↦ do
      route' ← change_each rebind_rule "rules" (rename_at old new "final" route)
      ok (put model "route" (obj route'))
    | v ↦ if is_true v then err attribute_error else ok model
  ]

  unfoldable pub rebind_document : Fields → Result ModelError Fields
  rebind_document model = do
    outbounds ← change_each rebind_item "outbounds" model
    grouped ← rebind_meta outbounds
    rebind_route grouped

module _ (u : Unicode) where
  unfoldable pub rebind_fields : Fields → Json → Result ModelError Fields
  rebind_fields model value = do
    old ← direct_tag model
    new ← tag value "direct tag"
    _ ← rebind_direct u (obj model) (str new)
    if old == new
        then ok model
        else (do result ← rebind_document old new model; _ ← migrate u (obj result); ok result)

  unfoldable pub rebind_direct_preserve_schema : Json → Json → Result ModelError Fields
  rebind_direct_preserve_schema (obj model) value = rebind_fields model value
  rebind_direct_preserve_schema _ value = err (invalid "model root must be an object")
