-- ===== src/Policy/Rename/Items.antt =====
-- What a renaming makes of one group and of one rule.
use mathlib.Core.List.{map-append}
use proxy_gateway_plus.Prelude.{
  String, Bool, false, ◌&&◌, List, [], ◌∷◌, ◌++◌, map, ◌==◌, String_eq, ◌≡◌, inl, inr, refl, sym,
  ap, ◌∙◌, Ensures, Ensures-bind, Ensures-step, map_result, if-split, Bool-cases,
}
use proxy_gateway_plus.Prelude.Json.{
  Json, null, bool, int, float, not_finite, str, arr, obj, nil, Fields, to_list, of_list,
  to_list-of_list,
}
use proxy_gateway_plus.Policy.{get_or, fetch, is_text, iterate}
use proxy_gateway_plus.Policy.Dicts.{fetch-put, get_or-put, get_or-put_other}
use proxy_gateway_plus.Policy.Group.{list_or_empty}
use proxy_gateway_plus.Policy.Validate.Reading.{collect}
use proxy_gateway_plus.Policy.Rename.{
  renamed, rename_group_name, rename_members, rename_in_group, rename_at, rename_rule, rename_rules,
}
use proxy_gateway_plus.Policy.Rename.References.{items_or_empty, members_of, rule_target}

module _ (old new : String) where
  pub fetch-rename_at :
      (key : String) (fs : Fields)
      → fetch (rename_at old new key fs) key ≡ renamed old new (fetch fs key)
  fetch-rename_at key fs = elim (Bool-cases (is_text (fetch fs key) old)) [
    | inl e ↦ rw e (fetch-put fs key (str new))
    | inr e ↦ rw e refl
  ]

  pub get_or-rename_at :
      (key other : String) (fs : Fields) (default : Json)
      → (key == other) ≡ false
      → get_or (rename_at old new key fs) other default ≡ get_or fs other default
  get_or-rename_at key other fs default d =
      if-split (λ gs. get_or gs other default ≡ get_or fs other default)
        (is_text (fetch fs key) old) _ _ (λ _. get_or-put_other fs key other (str new) default d)
        (λ _. refl)

  members_of-rename_group :
      (b : Bool) (group : Json)
      → Ensures
          (λ after. members_of after ≡ map (renamed old new) (members_of group))
          (rename_in_group old new b group)
  unfolding rename_in_group rename_members rename_group_name
  members_of-rename_group b (obj group) =
      Ensures-bind
        (λ after. members_of (obj after) ≡ map (renamed old new) (members_of (obj group))) _
        (rename_members old new (rename_group_name old new b group)) _
        (Ensures-step _ (iterate (get_or (rename_group_name old new b group) "proxies" (arr nil))) _
          (λ items e.
            ap (λ v. items_or_empty (iterate v))
              (get_or-put (rename_group_name old new b group) "proxies"
                (arr (of_list (map (renamed old new) items))) (arr nil))
            ∙ to_list-of_list (map (renamed old new) items)
            ∙ ap (λ r. map (renamed old new) (items_or_empty r))
                (sym e ∙ ap iterate (same_proxies group))))
        (λ after h. h)
    where
      same_proxies :
          (group : Fields)
          → get_or (rename_group_name old new b group) "proxies" (arr nil)
            ≡ get_or group "proxies" (arr nil)
      same_proxies group =
          if-split (λ gs. get_or gs "proxies" (arr nil) ≡ get_or group "proxies" (arr nil))
            (b && is_text (fetch group "name") old) _ _
            (λ _. get_or-put_other group "name" "proxies" (str new) (arr nil) refl) (λ _. refl)
  members_of-rename_group b null = tt
  members_of-rename_group b (bool c) = tt
  members_of-rename_group b (int n) = tt
  members_of-rename_group b (float n) = tt
  members_of-rename_group b not_finite = tt
  members_of-rename_group b (str t) = tt
  members_of-rename_group b (arr xs) = tt

  pub members_of-rename_groups :
      (b : Bool) (groups : List Json)
      → Ensures
          (λ after. collect members_of after ≡ map (renamed old new) (collect members_of groups))
          (map_result (rename_in_group old new b) groups)
  unfolding map_result
  members_of-rename_groups b [] = refl
  members_of-rename_groups b (group ∷ groups) =
      Ensures-bind _ _ (rename_in_group old new b group) _ (members_of-rename_group b group)
        (λ after e.
          Ensures-bind _ _ (map_result (rename_in_group old new b) groups) _
            (members_of-rename_groups b groups)
            (λ afters es.
              (λ i. e i ++ es i)
              ∙ sym (map-append (renamed old new) (members_of group) (collect members_of groups))))

  rule_target-rename :
      (rule : Json)
      → rule_target (rename_rule old new rule) ≡ map (renamed old new) (rule_target rule)
  unfolding rename_rule
  rule_target-rename (obj rule) = ap (λ v. v ∷ []) (fetch-rename_at "outbound" rule)
  rule_target-rename null = refl
  rule_target-rename (bool c) = refl
  rule_target-rename (int n) = refl
  rule_target-rename (float n) = refl
  rule_target-rename not_finite = refl
  rule_target-rename (str t) = refl
  rule_target-rename (arr xs) = refl

  rule_targets-rename :
      (rules : List Json)
      → collect rule_target (map (rename_rule old new) rules)
        ≡ map (renamed old new) (collect rule_target rules)
  rule_targets-rename [] = refl
  rule_targets-rename (rule ∷ rules) =
      (λ i. rule_target-rename rule i ++ rule_targets-rename rules i)
      ∙ sym (map-append (renamed old new) (rule_target rule) (collect rule_target rules))

  pub rules-rename :
      (rules : Json)
      → collect rule_target (list_or_empty (rename_rules old new rules))
        ≡ map (renamed old new) (collect rule_target (list_or_empty rules))
  rules-rename (arr xs) =
      ap (collect rule_target) (to_list-of_list (map (rename_rule old new) (to_list xs)))
      ∙ rule_targets-rename (to_list xs)
  rules-rename (obj fs) = refl
  rules-rename null = refl
  rules-rename (bool c) = refl
  rules-rename (int n) = refl
  rules-rename (float n) = refl
  rules-rename not_finite = refl
  rules-rename (str t) = refl
