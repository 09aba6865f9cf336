-- ===== src/Policy/Tests.antt =====
-- A small model, runs on it, and the theorems at concrete inputs.
use proxy_gateway_plus.Prelude.{
  String, true, List, [], ◌∷◌, ◌≡◌, ◌↔◌, refl, contains, map_result, Result, ok, err, String_eq,
}
use proxy_gateway_plus.Prelude.Json.{str, arr, obj, nil, cons}
use proxy_gateway_plus.Policy.{ModelError, fold_result, invalid, texts}
use proxy_gateway_plus.Policy.Names.{
  any_unsafe, has_length, is_tag, is_unsafe, normalize_name, normalize_text, tag, validate_name,
}
use proxy_gateway_plus.Policy.Group.{
  all_texts, check_options, check_strategy, declared_shape, direct_items, direct_tag,
  has_mihomo_shape, is_unique, member_lists, only_direct, policy_groups, validate_declared_meta,
  validate_declared_schema_shape, validate_group,
}
use proxy_gateway_plus.Policy.Cycle.{children, nodes, visit, visit_all}
use proxy_gateway_plus.Policy.Validate.{
  block_tags, build_graph, check_groups, check_namespace, check_part, check_provider_name,
  check_route, check_rule, check_target, group_names, read_meta, read_mihomo, scan_fields,
  scan_group, scan_outbound, validate, validate_fields,
}
use proxy_gateway_plus.Policy.Canonical.{
  alias_of, canonicalize_user_names, change_each, member, name_each, name_group, name_outbound,
  name_providers, rebuild, refer, refer_group, refer_members, refer_outbound, refer_route,
  refer_rule, refer_rule_set, reference, remember, rename_key,
}
use proxy_gateway_plus.Policy.Migrate.{
  any_group_outbound, current_groups, is_group_outbound, migrate, migrate_fields, normalize_mihomo,
  old_groups, schema_of, take_groups, without_groups,
}
use proxy_gateway_plus.Policy.Rename.{
  exits_of, gather, model_namespace, occupied_names, rebind_direct, rebind_outbound, rebind_to,
  rename_group_name, rename_in_group, rename_in_groups, rename_in_route, rename_members,
  rename_references, rename_rule, routable_tags, routable_tags_unchecked,
  validate_ruleset_namespace,
}
use proxy_gateway_plus.Policy.Cycle.Paths.{Walk}
use proxy_gateway_plus.Policy.Cycle.Decides.{dependencies_decides}
use proxy_gateway_plus.Policy.Validate.Reading.{dependencies}
use proxy_gateway_plus.Policy.Validate.Valid.{names_of, groups_of, targets_of, IsValid}
use proxy_gateway_plus.Policy.Migrated.{IsValid-migrate}
use proxy_gateway_plus.Policy.Names.Stripped.{validate_name-normalize}
use proxy_gateway_plus.Policy.Offered.{routable_tags-targets}
use proxy_gateway_plus.Policy.Rebound.{HasDirect, rebind_direct-HasDirect}
use proxy_gateway_plus.Policy.Refused.{rebind_direct_collision}
use proxy_gateway_plus.Policy.Beside.{FreeBeside, validate_ruleset_namespace-FreeBeside}
use proxy_gateway_plus.Policy.Sample.{ascii, sample}

migrate-sample : migrate ascii (obj (sample "jp")) ≡ ok (sample "jp")
unfolding fold_result is_unsafe any_unsafe has_length normalize_text validate_name is_tag tag
    direct_items only_direct direct_tag policy_groups has_mihomo_shape declared_shape
    validate_declared_meta validate_declared_schema_shape all_texts is_unique member_lists
    check_strategy check_options validate_group children nodes visit visit_all scan_fields
    scan_outbound scan_group check_provider_name check_namespace block_tags check_part build_graph
    check_target check_rule check_route read_mihomo read_meta check_groups validate_fields validate
    alias_of change_each remember rename_key name_outbound name_group name_each rebuild
    name_providers reference refer refer_members refer_outbound member refer_group refer_rule
    refer_rule_set refer_route canonicalize_user_names schema_of is_group_outbound
    any_group_outbound without_groups current_groups old_groups take_groups normalize_mihomo
    migrate_fields migrate contains map_result
migrate-sample = refl

validate-sample : validate ascii (obj (sample "jp")) ≡ ok tt
unfolding fold_result is_unsafe any_unsafe has_length normalize_text validate_name is_tag tag
    direct_items only_direct direct_tag policy_groups has_mihomo_shape declared_shape
    validate_declared_meta validate_declared_schema_shape all_texts is_unique member_lists
    check_strategy check_options validate_group children nodes visit visit_all scan_fields
    scan_outbound scan_group check_provider_name check_namespace block_tags check_part build_graph
    check_target check_rule check_route read_mihomo read_meta check_groups validate_fields validate
    alias_of change_each remember rename_key name_outbound name_group name_each rebuild
    name_providers reference refer refer_members refer_outbound member refer_group refer_rule
    refer_rule_set refer_route canonicalize_user_names schema_of is_group_outbound
    any_group_outbound without_groups current_groups old_groups take_groups normalize_mihomo
    migrate_fields migrate contains map_result
validate-sample = refl

-- A group that is a member of itself is refused.
cyclic : Result ModelError (List String)
cyclic = visit_all (("a", "b" ∷ []) ∷ ("b", "a" ∷ []) ∷ [])

cyclic-refused : cyclic ≡ err (invalid "policy groups contain a dependency cycle")
unfolding cyclic visit_all visit fold_result children nodes contains
cyclic-refused = refl

IsValid-migrate_example : IsValid (sample "jp")
IsValid-migrate_example = IsValid-migrate ascii (obj (sample "jp")) (sample "jp") migrate-sample

dependencies_decides_example :
    ((vs : List String) × (visit_all
          (dependencies (group_names (groups_of (sample "jp"))) (groups_of (sample "jp")))
        ≡ ok vs))
    ↔ ((name : String)
        → ¬ Walk
            (dependencies (group_names (groups_of (sample "jp"))) (groups_of (sample "jp")))
            name
            name)
dependencies_decides_example = dependencies_decides (groups_of (sample "jp"))

routable_tags-targets_example :
    routable_tags ascii (obj (sample "jp")) ≡ ok (texts (targets_of (sample "jp")))
routable_tags-targets_example =
    routable_tags-targets ascii (obj (sample "jp")) (sample "jp") migrate-sample

rebind-sample : rebind_direct ascii (obj (sample "jp")) (str "tokyo") ≡ ok (sample "tokyo")
unfolding fold_result is_unsafe any_unsafe has_length normalize_text validate_name is_tag tag
    direct_items only_direct direct_tag policy_groups has_mihomo_shape declared_shape
    validate_declared_meta validate_declared_schema_shape all_texts is_unique member_lists
    check_strategy check_options validate_group children nodes visit visit_all scan_fields
    scan_outbound scan_group check_provider_name check_namespace block_tags check_part build_graph
    check_target check_rule check_route read_mihomo read_meta check_groups validate_fields validate
    alias_of change_each remember rename_key name_outbound name_group name_each rebuild
    name_providers reference refer refer_members refer_outbound member refer_group refer_rule
    refer_rule_set refer_route canonicalize_user_names schema_of is_group_outbound
    any_group_outbound without_groups current_groups old_groups take_groups normalize_mihomo
    migrate_fields migrate exits_of gather routable_tags_unchecked routable_tags model_namespace
    validate_ruleset_namespace rename_group_name rename_members rename_in_group rename_rule
    rename_in_route rename_in_groups rename_references rebind_outbound occupied_names rebind_to
    rebind_direct contains map_result
rebind-sample = refl

rebind_direct-HasDirect_example :
    (new : String) × (str "tokyo" ≡ str new) × HasDirect new (sample "tokyo")
rebind_direct-HasDirect_example =
    rebind_direct-HasDirect ascii (obj (sample "jp")) (str "tokyo") (sample "tokyo") rebind-sample

direct_tag-sample : direct_tag (sample "jp") ≡ ok "jp"
unfolding direct_tag direct_items only_direct tag is_tag
direct_tag-sample = refl

tag-hk : tag (str "hk") "direct tag" ≡ ok "hk"
unfolding tag is_tag
tag-hk = refl

hk_taken : contains "hk" (names_of (sample "jp")) ≡ true
unfolding contains policy_groups all_texts
hk_taken = refl

rebind_direct_collision_example :
    rebind_direct ascii (obj (sample "jp")) (str "hk")
    ≡ err (invalid "direct tag collides with an existing model name")
rebind_direct_collision_example =
    rebind_direct_collision ascii (obj (sample "jp")) (sample "jp") "jp" "hk" migrate-sample
      direct_tag-sample tag-hk refl hk_taken

ruleset-sample :
    validate_ruleset_namespace ascii (obj (sample "jp")) (arr (cons (str "ads") nil)) ≡ ok tt
unfolding fold_result is_unsafe any_unsafe has_length normalize_text validate_name is_tag tag
    direct_items only_direct direct_tag policy_groups has_mihomo_shape declared_shape
    validate_declared_meta validate_declared_schema_shape all_texts is_unique member_lists
    check_strategy check_options validate_group children nodes visit visit_all scan_fields
    scan_outbound scan_group check_provider_name check_namespace block_tags check_part build_graph
    check_target check_rule check_route read_mihomo read_meta check_groups validate_fields validate
    alias_of change_each remember rename_key name_outbound name_group name_each rebuild
    name_providers reference refer refer_members refer_outbound member refer_group refer_rule
    refer_rule_set refer_route canonicalize_user_names schema_of is_group_outbound
    any_group_outbound without_groups current_groups old_groups take_groups normalize_mihomo
    migrate_fields migrate exits_of gather routable_tags_unchecked routable_tags model_namespace
    validate_ruleset_namespace rename_group_name rename_members rename_in_group rename_rule
    rename_in_route rename_in_groups rename_references rebind_outbound occupied_names rebind_to
    rebind_direct normalize_name map_result contains
ruleset-sample = refl

validate_ruleset_namespace-FreeBeside_example :
    (names : List String) × (map_result
        (λ name. normalize_name ascii name "ruleset provider name")
        (str "ads" ∷ [])
      ≡ ok names)
    × FreeBeside (sample "jp") names
validate_ruleset_namespace-FreeBeside_example =
    validate_ruleset_namespace-FreeBeside ascii (obj (sample "jp")) (cons (str "ads") nil)
      (sample "jp") migrate-sample ruleset-sample

normalized : normalize_name ascii (str " hk 1 ") "name" ≡ ok "hk 1"
unfolding normalize_name normalize_text any_unsafe is_unsafe has_length contains
normalized = refl

validate_name-normalize_example : validate_name ascii (str "hk 1") "name" ≡ ok "hk 1"
validate_name-normalize_example =
    validate_name-normalize ascii (λ s. refl) (str " hk 1 ") "name" "hk 1" normalized
