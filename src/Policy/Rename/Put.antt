-- ===== src/Policy/Rename/Put.antt =====
-- What a renaming does to the fields of a model.
use mathlib.Core.List.{map-append}
use proxy_gateway_plus.Prelude.{
  String, Bool, false, none, some, List, [], ◌∷◌, ◌++◌, map, ◌==◌, String_eq, ◌≡◌, ◌≢◌, refl, sym,
  ap, ◌∙◌, ok, ◌>>=◌, Ensures, Ensures-bind, Ensures-step, map_result,
}
use proxy_gateway_plus.Prelude.Json.{
  Json, null, bool, int, float, not_finite, str, arr, obj, nil, Fields, of_list, to_list-of_list,
  get,
}
use proxy_gateway_plus.Policy.{get_or, fetch, put, iterate}
use proxy_gateway_plus.Policy.Dicts.{get-put_other, fetch-put, fetch-put_other, get_or-put}
use proxy_gateway_plus.Policy.Group.{policy_groups, groups_of_meta, list_or_empty}
use proxy_gateway_plus.Policy.Cycle.Paths.{none-some}
use proxy_gateway_plus.Policy.Validate.Reading.{collect}
use proxy_gateway_plus.Policy.Rename.{
  renamed, rename_in_group, rename_at, rename_rules, rename_in_route, put_groups_at,
  rename_in_groups,
}
use proxy_gateway_plus.Policy.Rename.References.{members_of, rule_target, route_targets, references}
use proxy_gateway_plus.Policy.Rename.Items.{
  fetch-rename_at, get_or-rename_at, members_of-rename_groups, rules-rename,
}

module _ (old new : String) where
  -- The route after its rules are put back.
  route_targets-put :
      (final : Fields)
      → route_targets (
          obj (elim (get final "rules") [
            | none ↦ final
            | some rules ↦ put final "rules" (rename_rules old new rules)
          ]))
        ≡ fetch final "final"
          ∷ map
              (renamed old new)
              (collect rule_target (list_or_empty (get_or final "rules" (arr nil))))
  route_targets-put final =
      none-some
        (λ after.
          route_targets (obj after)
          ≡ fetch final "final"
            ∷ map (renamed old new)
                (collect rule_target (list_or_empty (get_or final "rules" (arr nil)))))
        (get final "rules") _ _
        (λ e.
          let none_given = ap (λ o. elim o [ none ↦ arr nil | some v ↦ v ]) e in
          (λ i. fetch final "final" ∷ collect rule_target (list_or_empty (none_given i)))
          ∙ sym (λ i.
            fetch final "final"
            ∷ map (renamed old new) (collect rule_target (list_or_empty (none_given i)))))
        (λ rules e. λ i.
          fetch-put_other final "rules" "final" (rename_rules old new rules) refl i
          ∷ (ap (λ v. collect rule_target (list_or_empty v))
                  (get_or-put final "rules" (rename_rules old new rules) (arr nil))
                ∙ rules-rename old new rules
                ∙ ap
                    (λ o. map (renamed old new) (
                      collect rule_target (list_or_empty (elim o [ none ↦ arr nil | some v ↦ v ]))))
                    (sym e))
              i)

  route_targets-rename :
      (route : Json)
      → Ensures
          (λ after. route_targets after ≡ map (renamed old new) (route_targets route))
          (rename_in_route old new route)
  unfolding rename_in_route
  route_targets-rename (obj route) =
      Ensures-step _ (iterate (get_or (rename_at old new "final" route) "rules" (arr nil))) _
        (λ items _. route_targets-put (rename_at old new "final" route) ∙ (λ i.
          fetch-rename_at old new "final" route i
          ∷ map (renamed old new) (
              collect rule_target
                (list_or_empty (get_or-rename_at old new "final" "rules" route (arr nil) refl i)))))
  route_targets-rename null = tt
  route_targets-rename (bool c) = tt
  route_targets-rename (int n) = tt
  route_targets-rename (float n) = tt
  route_targets-rename not_finite = tt
  route_targets-rename (str t) = tt
  route_targets-rename (arr xs) = tt

  -- The groups are put back where they were.
  policy_groups-put_groups :
      (model : Fields) (v : Json) (groups : List Json)
      → groups_of_meta v ≢ []
      → policy_groups (put_groups_at v model groups) ≡ groups
  unfolding policy_groups
  policy_groups-put_groups model (obj meta) groups n =
      ap groups_of_meta
        (fetch-put model "_pdg" (obj (put meta "policy-groups" (arr (of_list groups)))))
      ∙ ap list_or_empty (fetch-put meta "policy-groups" (arr (of_list groups)))
      ∙ to_list-of_list groups
  policy_groups-put_groups model null groups n = absurd (n refl)
  policy_groups-put_groups model (bool b) groups n = absurd (n refl)
  policy_groups-put_groups model (int k) groups n = absurd (n refl)
  policy_groups-put_groups model (float k) groups n = absurd (n refl)
  policy_groups-put_groups model not_finite groups n = absurd (n refl)
  policy_groups-put_groups model (str t) groups n = absurd (n refl)
  policy_groups-put_groups model (arr xs) groups n = absurd (n refl)

  pub get-put_groups :
      (model : Fields) (v : Json) (groups : List Json) (key : String)
      → ("_pdg" == key) ≡ false
      → get (put_groups_at v model groups) key ≡ get model key
  get-put_groups model (obj meta) groups key d = get-put_other model "_pdg" key _ d
  get-put_groups model null groups key d = refl
  get-put_groups model (bool b) groups key d = refl
  get-put_groups model (int k) groups key d = refl
  get-put_groups model (float k) groups key d = refl
  get-put_groups model not_finite groups key d = refl
  get-put_groups model (str t) groups key d = refl
  get-put_groups model (arr xs) groups key d = refl

  -- What holds of a loop over no groups and of one over some holds of both.
  nil-cons :
      {A B : Type 0} (P : B → Type 0) (xs : List A) (y : B) (f : A → List A → B)
      → (xs ≡ [] → P y)
      → ((a : A) (as' : List A) → xs ≡ a ∷ as' → P (f a as'))
      → P (elim xs [ [] ↦ y | a ∷ as' ↦ f a as' ])
  nil-cons P [] y f p q = p refl
  nil-cons P (a ∷ as') y f p q = q a as' refl

  -- A model whose groups are changed, and nothing else.
  abbrev pub GroupsRenamed : Fields → Fields → Type 0
  GroupsRenamed model after =
      (collect members_of (policy_groups after)
        ≡ map (renamed old new) (collect members_of (policy_groups model)))
      × ((key : String) → ("_pdg" == key) ≡ false → get after key ≡ get model key)

  pub GroupsRenamed-rename :
      (b : Bool) (model : Fields) → Ensures (GroupsRenamed model) (rename_in_groups old new b model)
  unfolding rename_in_groups policy_groups
  GroupsRenamed-rename b model =
      nil-cons (Ensures (GroupsRenamed model)) (policy_groups model) _ _
        (λ e. (
          ap (collect members_of) e
              ∙ ap (λ gs. map (renamed old new) (collect members_of gs)) (sym e),
          λ key d. refl,
        ))
        (λ group groups e.
          Ensures-bind _ _ (map_result (rename_in_group old new b) (group ∷ groups)) _
            (members_of-rename_groups old new b (group ∷ groups))
            (λ after changed. (
              ap (collect members_of) (
                    policy_groups-put_groups model (fetch model "_pdg") after
                      (λ none_there. cc (e, none_there)))
                  ∙ changed
                  ∙ ap (λ gs. map (renamed old new) (collect members_of gs)) (sym e),
              get-put_groups model (fetch model "_pdg") after,
            )))

  -- The renaming as a whole: each reference is renamed, the others are kept.
  pub rename_routes :
      (model before : Fields)
      → GroupsRenamed model before
      → Ensures
          (λ after. references after ≡ map (renamed old new) (references model))
          (elim (get before "route") [
            | none ↦ ok before
            | some route ↦
                rename_in_route old new route >>= λ route'. ok (put before "route" route')
          ])
  unfolding references policy_groups
  rename_routes model before (members, same) =
      none-some (Ensures (λ after. references after ≡ map (renamed old new) (references model)))
        (get before "route") _ _
        (λ missing.
          (λ i. members i ++ route_targets (absent missing i))
          ∙ whole null (sym (kept null (absent missing))))
        (λ route found.
          Ensures-bind _ _ (rename_in_route old new route) _ (route_targets-rename route)
            (λ after changed.
              (λ i.
                (ap (λ v. collect members_of (groups_of_meta v))
                      (fetch-put_other before "route" "_pdg" after refl)
                    ∙ members)
                  i
                ++ (ap route_targets (fetch-put before "route" after) ∙ changed) i)
              ∙ whole route
                  (sym (kept route (ap (λ o. elim o [ none ↦ null | some v ↦ v ]) found)))))
    where
      absent : get before "route" ≡ none → fetch before "route" ≡ null
      absent = ap (λ o. elim o [ none ↦ null | some v ↦ v ])

      kept : (v : Json) → fetch before "route" ≡ v → fetch model "route" ≡ v
      kept v e = ap (λ o. elim o [ none ↦ null | some w ↦ w ]) (sym (same "route" refl)) ∙ e

      whole :
          (v : Json)
          → v ≡ fetch model "route"
          → map (renamed old new) (collect members_of (policy_groups model))
              ++ map (renamed old new) (route_targets v)
            ≡ map (renamed old new) (references model)
      whole v e =
          sym (
            map-append (renamed old new) (collect members_of (policy_groups model))
              (route_targets v))
          ∙ ap
              (λ w.
                map (renamed old new) (collect members_of (policy_groups model) ++ route_targets w))
              e
