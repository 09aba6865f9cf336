-- ===== src/Policy/Validate.antt =====
-- `validate`: a model of schema 3 is checked part by part.
pub mod Reading
pub mod Scanned
pub mod Parts
pub mod Namespace
pub mod Targets
pub mod Valid
pub mod Metadata
pub mod Checked
use proxy_gateway_plus.Prelude.{
  ℕ, ◌+◌, String, Bool, true, false, not, ◌&&◌, ◌||◌, Option, none, some, List, [], ◌∷◌, ◌++◌, map,
  if◌then◌else◌, ◌==◌, ℕ_eq, String_eq, leb, all, any, length, contains, Result, ok, err, ◌>>=◌,
  ◌>>◌, guard,
}
use proxy_gateway_plus.Prelude.Json.{Json, null, str, arr, obj, nil, Fields, get, keys}
use proxy_gateway_plus.Policy.{
  ModelError, invalid, invalid_at, type_error, proxy_outbound_types, routable_outbound_types,
  reserved_targets, v3_meta_fields, v3_mihomo_fields, get_or, fetch, is_text, is_in, iterate,
  as_list, as_dict, same_set, distinct, is_current, fold_result,
}
use proxy_gateway_plus.Policy.Names.{Unicode, validate_name, tag}
use proxy_gateway_plus.Policy.Group.{Part, direct_tag, validate_group}
use proxy_gateway_plus.Policy.Cycle.{Graph, visit_all}

-- `outbound_names` and `routable` of the outbounds so far
pub record Scan : Type 0 where
  pub names : List String
  pub routable : List String

module _ (u : Unicode) where
  unfoldable pub scan_fields : Scan → Fields → Result ModelError Scan
  scan_fields s outbound = do
    is_proxy ← is_in (fetch outbound "type") proxy_outbound_types
    name ←
        if is_proxy
        then validate_name u (fetch outbound "tag") "outbound tag"
        else tag (fetch outbound "tag") "outbound tag"
    guard (not (contains name s.names)) (invalid_at "duplicate outbound tag: " name)
    is_group ← is_in (fetch outbound "type") ("selector" ∷ "urltest" ∷ [])
    guard (not is_group) (invalid "schema v3 policy groups cannot be outbounds")
    is_routable ← is_in (fetch outbound "type") routable_outbound_types
    ok (record {
      names = s.names ++ name ∷ [];
      routable = if is_routable then s.routable ++ name ∷ [] else s.routable;
    })

  unfoldable pub scan_outbound : Scan → Json → Result ModelError Scan
  scan_outbound s (obj outbound) = scan_fields s outbound
  scan_outbound s _ = err (invalid "outbound must be an object")

  unfoldable pub scan_group : List Part → Json → Result ModelError (List Part)
  scan_group parts group = do
    part ← validate_group u group
    guard (not (contains part.name (map (λ (p : Part). p.name) parts)))
        (invalid_at "duplicate policy group: " part.name)
    ok (parts ++ part ∷ [])

abbrev pub group_names : List Part → List String
group_names = map (λ (p : Part). p.name)

-- `xs & ys`, as a test
abbrev pub overlaps : List String → List String → Bool
overlaps xs ys = any (λ x. contains x ys) xs

module _ (u : Unicode) where
  unfoldable pub check_provider_name : Unit {0} → String → Result ModelError (Unit {0})
  check_provider_name _ name = do _ ← validate_name u (str name) "provider name"; ok tt

  unfoldable pub check_namespace :
      List String → List String → List String → List String → Result ModelError (Unit {0})
  check_namespace outbounds groups providers rule_providers = do
    fold_result check_provider_name tt (providers ++ rule_providers)
    let all_names = outbounds ++ groups ++ providers ++ rule_providers
    let occupied = distinct all_names
    guard
        (length occupied
          == length outbounds + length groups + length providers + length rule_providers)
        (invalid "proxy/group/provider names share one namespace")
    guard (not (overlaps occupied reserved_targets))
        (invalid "name collides with a reserved Mihomo target")
    ok tt

abbrev pub keep_if : {A : Type 0} → (A → Bool) → List A → List A
keep_if p [] = []
keep_if p (x ∷ xs) = let rest = keep_if p xs in if p x then x ∷ rest else rest

abbrev pub blocks_of_item : Json → List String
blocks_of_item (obj fs) =
    if is_text (fetch fs "type") "block"
    then (elim (fetch fs "tag") [ str s ↦ s ∷ [] | _ ↦ [] ])
    else []
blocks_of_item _ = []

-- The tags of the block outbounds, all of which are texts by now.
unfoldable pub block_tags : List Json → List String
block_tags [] = []
block_tags (item ∷ items) = blocks_of_item item ++ block_tags items

abbrev pub is_reject : List String → String → Bool
is_reject blocks item = item == "REJECT" || contains item blocks

-- What one group adds to the graph. `known` are the names that may be members.
unfoldable pub check_part :
    List String
    → List String
    → List String
    → List String
    → Part
    → Result ModelError (String × List String)
check_part known groups blocks providers part = do
  guard (all (λ item. contains item known) part.proxies)
      (invalid_at "policy group references an undefined member: " part.name)
  guard (leb (length (keep_if (is_reject blocks) part.proxies)) 1)
      (invalid_at "policy group has ambiguous REJECT members: " part.name)
  guard (all (λ item. contains item providers) part.uses)
      (invalid_at "policy group references an undefined proxy provider: " part.name)
  ok (part.name, keep_if (λ item. contains item groups) part.proxies)

unfoldable pub build_graph :
    List String → List String → List String → List String → List Part → Result ModelError Graph
build_graph known groups blocks providers [] = ok []
build_graph known groups blocks providers (part ∷ parts) = do
  entry ← check_part known groups blocks providers part
  graph ← build_graph known groups blocks providers parts
  ok (entry ∷ graph)

unfoldable pub check_target : List String → Json → Result ModelError (Unit {0})
check_target routable null = ok tt
check_target routable target = do
  known ← is_in target routable
  guard known (invalid "route rule references an undefined target")
  ok tt

unfoldable pub check_rule : List String → Unit {0} → Json → Result ModelError (Unit {0})
check_rule routable _ (obj rule) = check_target routable (fetch rule "outbound")
check_rule routable _ _ = err (invalid "route rule must be an object")

unfoldable pub check_route : List String → Json → Result ModelError (Unit {0})
check_route routable (obj route) = do
  known ← is_in (fetch route "final") routable
  guard known (invalid "route.final references an undefined target")
  rules ← as_list (get_or route "rules" (arr nil)) (invalid "route.rules must be a list")
  fold_result (check_rule routable) tt rules
check_route routable _ = err (invalid "route.final references an undefined target")

unfoldable pub read_mihomo : Json → Result ModelError (List String × List String)
read_mihomo (obj mihomo) = do
  guard (same_set (keys mihomo) v3_mihomo_fields) (invalid "invalid schema-v3 Mihomo metadata")
  providers ← as_dict (fetch mihomo "proxy-providers") (invalid "providers must be mappings")
  rule_providers ← as_dict (fetch mihomo "rule-providers") (invalid "providers must be mappings")
  ok (keys providers, keys rule_providers)
read_mihomo _ = err (invalid "invalid schema-v3 Mihomo metadata")

-- The metadata, with the names of the providers of both kinds.
unfoldable pub read_meta : Json → Result ModelError (Fields × (List String × List String))
read_meta (obj meta) = do
  guard (is_current (fetch meta "schema") && same_set (keys meta) v3_meta_fields)
      (invalid "model is not canonical schema v3")
  names ← read_mihomo (fetch meta "mihomo")
  ok (meta, names)
read_meta _ = err (invalid "model is not canonical schema v3")

module _ (u : Unicode) where
  unfoldable pub check_groups :
      List Json → Scan → List Json → List String → List String → Result ModelError (List String)
  check_groups outbounds scan groups providers rule_providers = do
    parts ← fold_result (scan_group u) [] groups
    let names = group_names parts
    check_namespace u scan.names names providers rule_providers
    graph ←
        build_graph ("REJECT" ∷ scan.routable ++ names) names (block_tags outbounds) providers parts
    _ ← visit_all graph
    ok (scan.routable ++ names)

  unfoldable pub validate_fields : Fields → Result ModelError (Unit {0})
  validate_fields model = do
    outbounds ← as_list (fetch model "outbounds") (invalid "invalid model")
    direct ← direct_tag model
    guard (not (contains direct reserved_targets))
        (invalid "direct tag collides with a reserved target")
    (meta, names) ← read_meta (fetch model "_pdg")
    scan ← fold_result (scan_outbound u) (record { names = []; routable = [] }) outbounds
    groups ← iterate (fetch meta "policy-groups")
    routable ← check_groups outbounds scan groups names.0 names.1
    check_route routable (fetch model "route")

  unfoldable pub validate : Json → Result ModelError (Unit {0})
  validate (obj model) = validate_fields model
  validate _ = err (invalid "invalid model")
