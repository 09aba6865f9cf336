-- ===== src/Policy/Validate/Namespace.antt =====
-- The names of a model share one namespace: all of them differ, and none is reserved.
use proxy_gateway_plus.Prelude.{
  ◌+◌, ◌≤◌, String, true, false, not, List, [], ◌∷◌, ◌++◌, ◌==◌, ==_iff, String_eq, ℕ_eq, length,
  length-append, contains, ◌≡◌, sym, ◌∙◌, inl, inr, Ensures, Ensures-guard, Ensures-step, arith,
  Bool-cases,
}
use proxy_gateway_plus.Prelude.Pigeonhole.{Unique}
use proxy_gateway_plus.Policy.{reserved_targets, distinct, fold_result}
use proxy_gateway_plus.Policy.Names.{Unicode}
use proxy_gateway_plus.Policy.Validate.{overlaps, check_provider_name, check_namespace}

length-distinct : (xs : List String) → length (distinct xs) ≤ length xs
length-distinct [] = omega arith
length-distinct (x ∷ xs) = ground (arith, length-distinct xs)

pub contains-distinct :
    (x : String) (xs : List String) → contains x xs ≡ true → contains x (distinct xs) ≡ true
unfolding contains
contains-distinct x [] h = h
contains-distinct x (y ∷ xs) h = ground (arith, ==_iff y x, contains-distinct x xs)

-- A list that is as long as its set has no repetitions.
pub Unique-distinct : (xs : List String) → length (distinct xs) ≡ length xs → Unique xs
Unique-distinct [] h = tt
Unique-distinct (x ∷ xs) h = (
  elim (Bool-cases (contains x xs)) [
    | inr f ↦ f
    | inl t ↦ ground (arith, contains-distinct x xs t, length-distinct xs)
  ],
  Unique-distinct xs (ground (arith, length-distinct xs)),
)

overlaps-none :
    (xs ys : List String) (x : String)
    → overlaps xs ys ≡ false
    → contains x xs ≡ true
    → contains x ys ≡ false
unfolding contains
overlaps-none [] ys x o m = cc
overlaps-none (z ∷ xs) ys x o m = ground (arith, ==_iff z x, overlaps-none xs ys x)

-- All names differ, and none is reserved.
abbrev pub AreFree : List String → Type 0
AreFree names =
    Unique names
    × ((name : String) → contains name names ≡ true → contains name reserved_targets ≡ false)

length-append₄ :
    (a b c d : List String) → length (a ++ b ++ c ++ d) ≡ length a + length b + length c + length d
length-append₄ a b c d =
    omega (arith, length-append (a ++ b ++ c) d, length-append (a ++ b) c, length-append a b)

pub AreFree-check :
    (u : Unicode) (outbounds groups providers rule_providers : List String)
    → Ensures
        (λ _. AreFree (outbounds ++ groups ++ providers ++ rule_providers))
        (check_namespace u outbounds groups providers rule_providers)
unfolding check_namespace
AreFree-check u a b c d = Ensures-step _ (fold_result (check_provider_name u) tt (c ++ d)) _ (λ _ _.
    Ensures-guard _ (length (distinct names) == length a + length b + length c + length d) _ _
      (λ same. Ensures-guard _ (not (overlaps (distinct names) reserved_targets)) _ _ (λ free. (
        Unique-distinct names
            ((==_iff (length (distinct names)) _).0 same ∙ sym (length-append₄ a b c d)),
        λ name m.
            overlaps-none (distinct names) reserved_targets name (ground (arith, free))
              (contains-distinct name names m),
      ))))
  where
    names : List String
    names = a ++ b ++ c ++ d
