-- ===== src/Policy/Cycle/Blame.antt =====
-- A search that reports a cycle has found one.
use proxy_gateway_plus.Prelude.{
  ℕ, zero, suc, String, true, List, [], ◌∷◌, String_eq, ◌≡◌, inl, inr, contains, ok, Raises,
  Raises-bind, length, subst,
}
use proxy_gateway_plus.Prelude.Contains.{contains-cases}
use proxy_gateway_plus.Policy.{ModelError, fold_result, Raises-fold, invalid}
use proxy_gateway_plus.Policy.Cycle.{Graph, children, nodes, visit, visit_all}
use proxy_gateway_plus.Policy.Cycle.Paths.{Next, Walk, edge, Walk-append, true-false, none-some}

-- A report of a cycle is right if some walk leads back to where it began.
abbrev pub Blames : Graph → ModelError → Type 0
Blames g (invalid message) = (x : String) × Walk g x x
Blames g _ = Unit

-- Each name on the way to `name` leads to it.
abbrev Leads : Graph → List String → String → Type 0
Leads g visiting name = (v : String) → contains v visiting ≡ true → Walk g v name

Leads-child :
    (g : Graph) (visiting : List String) (name child : String)
    → Leads g visiting name
    → Next g name child
    → Leads g (name ∷ visiting) child
Leads-child g visiting name child l n v m = elim (contains-cases v name visiting m) [
  | inl e ↦ subst (λ w. Walk g w child) e (edge n)
  | inr t ↦ Walk-append g (l v t) n
]

pub Blames-visit :
    (g : Graph) (fuel : ℕ) (visiting visited : List String) (name : String)
    → Leads g visiting name
    → Raises (Blames g) (visit g fuel visiting visited name)
unfolding visit
Blames-visit g zero visiting visited name l = tt
Blames-visit g (suc fuel) visiting visited name l =
    true-false (Raises (Blames g)) (contains name visiting) _ _ (λ on_path. (name, l name on_path))
      (λ _.
        true-false (Raises (Blames g)) (contains name visited) _ _ (λ _. tt)
          (λ _.
            none-some (Raises (Blames g)) (children g name) _ _ (λ _. tt)
              (λ cs found.
                Raises-bind (Blames g) (fold_result (visit g fuel (name ∷ visiting)) visited cs)
                  (λ after. ok (name ∷ after))
                  (Raises-fold (Blames g) (visit g fuel (name ∷ visiting)) cs
                    (λ v child m.
                      Blames-visit g fuel (name ∷ visiting) v child
                        (Leads-child g visiting name child l (cs, found, m)))
                    visited)
                  (λ after _. tt))))

-- If the search reports a cycle, some walk leads back to where it began.
pub Blames-visit_all : (g : Graph) → Raises (Blames g) (visit_all g)
unfolding visit_all contains
Blames-visit_all g =
    Raises-fold (Blames g) (visit g (suc (length g)) []) (nodes g)
      (λ visited name _. Blames-visit g (suc (length g)) [] visited name (λ v m. cc)) []
