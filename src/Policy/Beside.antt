-- ===== src/Policy/Beside.antt =====
-- What `validate_ruleset_namespace` accepts beside a model.
use Prim.Native.Nat.{Ordering}
use Prim.Native.String.{compare}
use proxy_gateway_plus.Prelude.{
  suc, String, Bool, true, false, List, [], ◌∷◌, ◌++◌, ◌==◌, ==_iff, String_eq, ℕ_eq, length,
  contains, Result, ok, ◌≡◌, inl, inr, refl, sym, ap, ◌∙◌, subst, Ensures-guard, Ensures-step,
  Ensures-eq, map_result, ok-injective, Bool-cases, arith,
}
use proxy_gateway_plus.Prelude.Contains.{contains-nil, contains-left, contains-right}
use proxy_gateway_plus.Prelude.Pigeonhole.{Unique}
use proxy_gateway_plus.Prelude.Json.{Json, arr, Items, Fields, to_list}
use proxy_gateway_plus.Policy.{ModelError, reserved_targets, distinct}
use proxy_gateway_plus.Policy.Names.{Unicode, normalize_name}
use proxy_gateway_plus.Policy.Migrate.{migrate}
use proxy_gateway_plus.Policy.Validate.{keep_if}
use proxy_gateway_plus.Policy.Validate.Namespace.{Unique-distinct, contains-distinct}
use proxy_gateway_plus.Policy.Validate.Valid.{names_of}
use proxy_gateway_plus.Policy.Rename.{model_namespace, sort, insert, validate_ruleset_namespace}
use proxy_gateway_plus.Policy.Offered.{model_namespace-names}
use proxy_gateway_plus.Policy.Refused.{contains-keep_if}

length-insert : (s : String) (ss : List String) → length (insert s ss) ≡ suc (length ss)
length-insert s [] = refl
length-insert s (t ∷ ts) = placed (compare s t) (insert s ts) (length-insert s ts)
  where
    placed :
        (o : Ordering) (rest : List String)
        → length rest ≡ suc (length ts)
        → length (elim o [ Ordering.gt ↦ t ∷ rest | _ ↦ s ∷ t ∷ ts ]) ≡ suc (suc (length ts))
    placed Ordering.lt rest h = refl
    placed Ordering.eq rest h = refl
    placed Ordering.gt rest h = ap suc h

length-sort : (ss : List String) → length (sort ss) ≡ length ss
length-sort [] = refl
length-sort (s ∷ ss) = length-insert s (sort ss) ∙ ap suc (length-sort ss)

keep_if-none :
    (p : String → Bool) (xs : List String) (x : String)
    → length (keep_if p xs) ≡ 0
    → contains x xs ≡ true
    → p x ≡ false
keep_if-none p xs x e m = elim (Bool-cases (p x)) [
  | inr f ↦ f
  | inl t ↦ some_kept (keep_if p xs) (contains-keep_if p xs x t m) e
]
  where
    nothing : ¬ contains x [] ≡ true
    nothing c = cc (contains-nil x, c)

    some_kept : (ys : List String) → contains x ys ≡ true → length ys ≡ 0 → p x ≡ false
    some_kept [] c l = absurd (nothing c)
    some_kept (y ∷ ys) c l = absurd (omega (arith, l))

-- Names that differ and that nothing else has.
abbrev pub FreeBeside : Fields → List String → Type 0
FreeBeside model names =
    Unique names
    × ((name : String)
        → contains name names ≡ true
        → (contains name (names_of model) ≡ false) × (contains name reserved_targets ≡ false))

refute : (b : Bool) → ¬ b ≡ true → b ≡ false
refute false h = refl
refute true h = absurd (h refl)

free_name :
    (model : Fields) (name : String)
    → contains name (distinct (names_of model) ++ reserved_targets) ≡ false
    → (contains name (names_of model) ≡ false) × (contains name reserved_targets ≡ false)
free_name model name f = (
  refute (contains name (names_of model)) (λ t. cc (
    f,
    contains-left name (distinct (names_of model)) reserved_targets
        (contains-distinct name (names_of model) t),
  )),
  refute (contains name reserved_targets)
      (λ t. cc (f, contains-right name (distinct (names_of model)) reserved_targets t)),
)

-- Without collisions, no name is in the namespace.
no_collision :
    (namespace names : List String) (name : String)
    → (length (sort (keep_if (λ n. contains n namespace) (distinct names))) == 0) ≡ true
    → contains name names ≡ true
    → contains name namespace ≡ false
no_collision namespace names name e t =
    keep_if-none (λ n. contains n namespace) (distinct names) name
      (sym (length-sort (keep_if (λ n. contains n namespace) (distinct names)))
        ∙ (==_iff (length (sort (keep_if (λ n. contains n namespace) (distinct names)))) 0).0 e)
      (contains-distinct name names t)

-- Names of rule sets that are accepted beside a model that migration returns are normalized to names
-- that differ, that nothing in the model has and that are not reserved.
pub validate_ruleset_namespace-FreeBeside :
    (u : Unicode) (value : Json) (items : Items) (model : Fields)
    → migrate u value ≡ ok model
    → validate_ruleset_namespace u value (arr items) ≡ ok tt
    → (names : List String) × (map_result
          (λ name. normalize_name u name "ruleset provider name")
          (to_list items)
        ≡ ok names)
      × FreeBeside model names
unfolding validate_ruleset_namespace
validate_ruleset_namespace-FreeBeside u value items model m e =
    Ensures-eq (λ _. Right) (validate_ruleset_namespace u value (arr items)) tt
      (Ensures-step _ (map_result normalized (to_list items)) _ (λ names done.
        Ensures-guard _ (length (distinct names) == length names) _ _ (λ same.
          Ensures-step _ (model_namespace u value) _ (λ namespace space.
            Ensures-guard _
              (length (
                  sort (
                    keep_if (λ name. contains name (namespace ++ reserved_targets))
                      (distinct names)))
                == 0)
              _ _
              (λ none_left. (
                names,
                done,
                (
                  Unique-distinct names ((==_iff (length (distinct names)) _).0 same),
                  λ name t. free_name model name (
                      subst (λ ns. contains name (ns ++ reserved_targets) ≡ false)
                        (ok-injective (sym space ∙ model_namespace-names u value model m))
                        (no_collision (namespace ++ reserved_targets) names name none_left t)),
                ),
              ))))))
      e
  where
    normalized : Json → Result ModelError String
    normalized name = normalize_name u name "ruleset provider name"

    Right : Type 0
    Right =
        (names : List String) × (map_result (λ name. normalize_name u name "ruleset provider name")
            (to_list items)
          ≡ ok names)
        × FreeBeside model names
