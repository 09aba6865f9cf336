-- ===== src/Policy/Cycle/Order.antt =====
-- A search that ends has ordered the groups: each comes after those that it depends on, so that no
-- walk leads back to where it began.
use mathlib.Core.Option.{some-injective}
use proxy_gateway_plus.Prelude.{
  ℕ, zero, suc, String, true, some, List, [], ◌∷◌, String_eq, ◌≡◌, inl, inr, refl, contains, arith,
  subst, all, Result, ok, Ensures, Ensures-bind, Ensures-weaken, Ensures-eq, length, sym, ◌∙◌,
}
use proxy_gateway_plus.Prelude.Contains.{contains_head, contains_tail, contains-cases, all-item}
use proxy_gateway_plus.Policy.{ModelError, fold_result}
use proxy_gateway_plus.Policy.Cycle.{Graph, children, nodes, visit, visit_all}
use proxy_gateway_plus.Policy.Cycle.Paths.{
  Next, Walk, edge, via, nodes-children, true-false, none-some,
}

-- Each name's children are among the names after it.
abbrev pub Ordered : Graph → List String → Type 0
Ordered g [] = Unit
Ordered g (x ∷ xs) =
    ((cs : List String) × (children g x ≡ some cs) × (all (λ c. contains c xs) cs ≡ true))
    × Ordered g xs

abbrev pub Extends : List String → List String → Type 0
Extends xs ys = (s : String) → contains s xs ≡ true → contains s ys ≡ true

-- What a visit of `name` makes of the names that were visited.
abbrev pub Visits : Graph → List String → String → List String → Type 0
Visits g visited name after = Ordered g after × (contains name after ≡ true) × Extends visited after

module _ (g : Graph) (step : List String → String → Result ModelError (List String)) where
  -- What a loop over visits makes of them.
  pub Visits-fold :
      ((visited : List String) (name : String)
        → Ordered g visited
        → Ensures (Visits g visited name) (step visited name))
      → (names visited : List String) → Ordered g visited
      → Ensures
          (λ after.
            Ordered g after × (all (λ c. contains c after) names ≡ true) × Extends visited after)
          (fold_result step visited names)
  unfolding fold_result
  Visits-fold h [] visited o = (o, refl, λ s m. m)
  Visits-fold h (name ∷ names) visited o =
      Ensures-bind (Visits g visited name) _ (step visited name) _ (h visited name o)
        (λ middle (o', found, more).
          Ensures-weaken _ _ (fold_result step middle names)
            (λ after (o'', each, more').
              (o'', ground (arith, more' name found, each), λ s m. more' s (more s m)))
            (Visits-fold h names middle o'))

pub Visits-visit :
    (g : Graph) (fuel : ℕ) (visiting visited : List String) (name : String)
    → Ordered g visited
    → Ensures (Visits g visited name) (visit g fuel visiting visited name)
unfolding visit
Visits-visit g zero visiting visited name o = tt
Visits-visit g (suc fuel) visiting visited name o =
    true-false (Ensures (Visits g visited name)) (contains name visiting) _ _ (λ _. tt)
      (λ _.
        true-false (Ensures (Visits g visited name)) (contains name visited) _ _
          (λ seen. (o, seen, λ s m. m))
          (λ _.
            none-some (Ensures (Visits g visited name)) (children g name) _ _ (λ _. tt)
              (λ cs found.
                Ensures-bind _ _ (fold_result (visit g fuel (name ∷ visiting)) visited cs) _
                  (Visits-fold g (visit g fuel (name ∷ visiting))
                    (Visits-visit g fuel (name ∷ visiting)) cs visited o)
                  (λ after (o', each, more). (
                    ((cs, found, each), o'),
                    contains_head name after,
                    λ s m. contains_tail s name after (more s m),
                  )))))

-- Each child of a name is among some names.
abbrev FirstOf : Graph → String → List String → Type 0
FirstOf g x xs =
    (cs : List String) × (children g x ≡ some cs) × (all (λ c. contains c xs) cs ≡ true)

FirstOf-Next :
    (g : Graph) (x y : String) (xs : List String)
    → FirstOf g x xs
    → Next g x y
    → contains y xs ≡ true
FirstOf-Next g x y xs (ds, here, each) (cs, at, child) =
    all-item (λ c. contains c xs) ds y each
      (subst (λ es. contains y es ≡ true) (some-injective cs ds (sym at ∙ here)) child)

-- A walk from a name in an ordered list stays in it.
Ordered-Next :
    (g : Graph) (xs : List String) (x y : String)
    → Ordered g xs
    → contains x xs ≡ true
    → Next g x y
    → contains y xs ≡ true
unfolding contains
Ordered-Next g [] x y o m n = cc
Ordered-Next g (z ∷ xs) x y (first, o) m n = contains_tail y z xs (elim (contains-cases x z xs m) [
  | inl e ↦ FirstOf-Next g x y xs (subst (λ w. FirstOf g w xs) e first) n
  | inr t ↦ Ordered-Next g xs x y o t n
])

Ordered-Walk :
    (g : Graph) (xs : List String) {x y : String}
    → Ordered g xs
    → contains x xs ≡ true
    → Walk g x y
    → contains y xs ≡ true
Ordered-Walk g xs {x} {y} o m (edge n) = Ordered-Next g xs x y o m n
Ordered-Walk g xs o m (via {x} {y} n p) = Ordered-Walk g xs o (Ordered-Next g xs x y o m n) p

FirstOf-Walk :
    (g : Graph) (xs : List String) {x y : String}
    → Ordered g xs
    → FirstOf g x xs
    → Walk g x y
    → contains y xs ≡ true
FirstOf-Walk g xs {x} {y} o f (edge n) = FirstOf-Next g x y xs f n
FirstOf-Walk g xs o f (via {x} {y} n p) = Ordered-Walk g xs o (FirstOf-Next g x y xs f n) p

Ordered-irreflexive :
    (g : Graph) (xs : List String) (x : String) → Ordered g xs → contains x xs ≡ true → ¬ Walk g x x
unfolding contains
Ordered-irreflexive g [] x o m p = cc
Ordered-irreflexive g (z ∷ xs) x (first, o) m p = elim (contains-cases x z xs m) [
  | inr t ↦ Ordered-irreflexive g xs x o t p
  | inl e ↦
      Ordered-irreflexive g xs x o (FirstOf-Walk g xs o (subst (λ w. FirstOf g w xs) e first) p) p
]

path_starts : (g : Graph) {x y : String} → Walk g x y → contains x (nodes g) ≡ true
path_starts g {x} (edge (cs, at, c)) = nodes-children g x cs at
path_starts g (via {x} (cs, at, c) p) = nodes-children g x cs at

-- If the search ends, no walk leads back to where it began.
pub visit_all_acyclic :
    (g : Graph) (vs : List String) → visit_all g ≡ ok vs → (x : String) → ¬ Walk g x x
unfolding visit_all
visit_all_acyclic g vs e x p =
    let (o, each, _) =
      Ensures-eq _ (visit_all g) vs
        (Visits-fold g (visit g (suc (length g)) []) (Visits-visit g (suc (length g)) []) (nodes g)
          [] tt)
        e in
    Ordered-irreflexive g vs x o (all-item (λ c. contains c vs) (nodes g) x each (path_starts g p))
      p
