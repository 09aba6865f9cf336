-- ===== src/Policy/Validate/Targets.antt =====
-- The check of the route, and the agreement of the names that are read with `routable_tags_unchecked`.
use proxy_gateway_plus.Prelude.{
  String, true, List, [], ◌∷◌, String_eq, contains, Result, ok, ◌≡◌, refl, sym, ap, ◌∙◌, subst, All,
  Ensures, Ensures-bind, Ensures-guard, Ensures-step, Ensures-weaken, ◌>>=◌, ◌>>◌, guard,
}
use proxy_gateway_plus.Prelude.Json.{
  Json, null, bool, int, float, not_finite, str, arr, obj, Items, nil, to_list,
}
use proxy_gateway_plus.Policy.{ModelError, get_or, fetch, is_in, as_list, invalid, fold_result}
use proxy_gateway_plus.Policy.Validate.{check_target, check_rule, check_route}

-- A text that is one of the targets.
abbrev pub IsTarget : List String → Json → Type 0
IsTarget targets v = (t : String) × (v ≡ str t) × (contains t targets ≡ true)

abbrev pub IsTargetOrNull : List String → Json → Type 0
IsTargetOrNull targets null = Unit
IsTargetOrNull targets v = IsTarget targets v

abbrev pub RuleFits : List String → Json → Type 0
RuleFits targets (obj rule) = IsTargetOrNull targets (fetch rule "outbound")
RuleFits targets rule = ⊥

-- `final` and the outbound of each rule are targets.
abbrev pub RouteFits : List String → Json → Type 0
RouteFits targets (obj route) =
    IsTarget targets (fetch route "final")
    × ((rules : Items) × (get_or route "rules" (arr nil) ≡ arr rules)
        × All (RuleFits targets) (to_list rules))
RouteFits targets route = ⊥

is_in-Target : (targets : List String) (v : Json) → is_in v targets ≡ ok true → IsTarget targets v
is_in-Target targets (str t) e = (t, refl, cc)
is_in-Target targets null e = cc
is_in-Target targets (bool b) e = cc
is_in-Target targets (int n) e = cc
is_in-Target targets (float n) e = cc
is_in-Target targets not_finite e = cc
is_in-Target targets (arr xs) e = cc
is_in-Target targets (obj fs) e = cc

-- A test of membership that must pass.
guarded-Target :
    {A : Type 0} (P : A → Type 0) (targets : List String) (v : Json) (e : ModelError)
    (rest : Result ModelError A)
    → (IsTarget targets v → Ensures P rest)
    → Ensures P (do known ← is_in v targets; guard known e; rest)
guarded-Target P targets v e rest k =
    Ensures-step P (is_in v targets) _
      (λ known i. Ensures-guard P known e rest (λ t. k (is_in-Target targets v (i ∙ ap ok t))))

Fits-target :
    (targets : List String) (v : Json)
    → Ensures (λ _. IsTargetOrNull targets v) (check_target targets v)
unfolding check_target
Fits-target targets null = tt
Fits-target targets (bool b) = tt
Fits-target targets (int n) = tt
Fits-target targets (float n) = tt
Fits-target targets not_finite = tt
Fits-target targets (str t) =
    guarded-Target (λ _. IsTarget targets (str t)) targets (str t) _ (ok tt) (λ h. h)
Fits-target targets (arr xs) = tt
Fits-target targets (obj fs) = tt

Fits-rule :
    (targets : List String) (rule : Json)
    → Ensures (λ _. RuleFits targets rule) (check_rule targets tt rule)
unfolding check_rule
Fits-rule targets (obj rule) = Fits-target targets (fetch rule "outbound")
Fits-rule targets null = tt
Fits-rule targets (bool b) = tt
Fits-rule targets (int n) = tt
Fits-rule targets (float n) = tt
Fits-rule targets not_finite = tt
Fits-rule targets (str t) = tt
Fits-rule targets (arr xs) = tt

Fits-rules :
    (targets : List String) (rules : List Json)
    → Ensures (λ _. All (RuleFits targets) rules) (fold_result (check_rule targets) tt rules)
unfolding fold_result
Fits-rules targets [] = tt
Fits-rules targets (rule ∷ rules) =
    Ensures-bind (λ _. RuleFits targets rule) _ (check_rule targets tt rule) _
      (Fits-rule targets rule)
      (λ _ f.
        Ensures-weaken _ _ (fold_result (check_rule targets) tt rules) (λ _ fs. (f, fs))
          (Fits-rules targets rules))

pub as_list-Items :
    (v : Json) (e : ModelError)
    → Ensures (λ xs. (items : Items) × (v ≡ arr items) × (to_list items ≡ xs)) (as_list v e)
as_list-Items (arr items) e = (items, refl, refl)
as_list-Items null e = tt
as_list-Items (bool b) e = tt
as_list-Items (int n) e = tt
as_list-Items (float n) e = tt
as_list-Items not_finite e = tt
as_list-Items (str t) e = tt
as_list-Items (obj fs) e = tt

pub Fits-route :
    (targets : List String) (v : Json) → Ensures (λ _. RouteFits targets v) (check_route targets v)
unfolding check_route
Fits-route targets (obj route) =
    guarded-Target (λ _. RouteFits targets (obj route)) targets (fetch route "final") _ _
      (λ final.
        Ensures-bind _ (λ _. RouteFits targets (obj route))
          (as_list (get_or route "rules" (arr nil)) (invalid "route.rules must be a list")) _
          (as_list-Items (get_or route "rules" (arr nil)) _)
          (λ rules (items, is_list, same).
            Ensures-weaken _ _ (fold_result (check_rule targets) tt rules)
              (λ _ fit. (final, (items, is_list, subst (All (RuleFits targets)) (sym same) fit)))
              (Fits-rules targets rules)))
Fits-route targets null = tt
Fits-route targets (bool b) = tt
Fits-route targets (int n) = tt
Fits-route targets (float n) = tt
Fits-route targets not_finite = tt
Fits-route targets (str t) = tt
Fits-route targets (arr xs) = tt
