-- ===== src/Policy/Cycle/Fuel.antt =====
-- The search never runs out of fuel, nor asks for the members of a name that has none, in a graph
-- where each member is a node.
use proxy_gateway_plus.Prelude.{
  ℕ, zero, suc, ◌+◌, String, true, false, none, List, [], ◌∷◌, String_eq, ◌≡◌, inl, inr, refl,
  contains, ok, Raises, Raises-bind, length, subst, arith,
}
use proxy_gateway_plus.Prelude.Contains.{contains-cases}
use proxy_gateway_plus.Prelude.Pigeonhole.{Unique, pigeonhole}
use proxy_gateway_plus.Policy.{ModelError, fold_result, Raises-fold, invalid}
use proxy_gateway_plus.Policy.Cycle.{Graph, children, nodes, visit, visit_all}
use proxy_gateway_plus.Policy.Cycle.Paths.{Next, true-false, none-some}

abbrev pub Closed : Graph → Type 0
Closed g = (name child : String) → Next g name child → contains child (nodes g) ≡ true

-- The only exception is a model's being invalid.
abbrev pub Refuses : ModelError → Type 0
Refuses (invalid message) = Unit
Refuses _ = ⊥

length-nodes : (g : Graph) → length (nodes g) ≡ length g
unfolding nodes
length-nodes [] = refl
length-nodes ((n, cs) ∷ g) = omega (arith, length-nodes g)

children-nodes :
    (g : Graph) (name : String) → contains name (nodes g) ≡ true → ¬ children g name ≡ none
unfolding children nodes contains
children-nodes [] name m e = cc
children-nodes ((n, cs) ∷ g) name m e = ground (arith, children-nodes g name)

-- The names on the way differ, are nodes, and with the fuel that is left they are one more than the
-- nodes.
record OnWay (g : Graph) (fuel : ℕ) (visiting : List String) : Type 0 where
  differ : Unique visiting
  known : (v : String) → contains v visiting ≡ true → contains v (nodes g) ≡ true
  enough : fuel + length visiting ≡ suc (length g)

OnWay-zero : (g : Graph) (visiting : List String) → ¬ OnWay g zero visiting
OnWay-zero g visiting w =
    omega (arith, pigeonhole visiting (nodes g) w.differ w.known, length-nodes g, w.enough)

OnWay-deeper :
    (g : Graph) (fuel : ℕ) (visiting : List String) (name : String)
    → OnWay g (suc fuel) visiting
    → contains name visiting ≡ false
    → contains name (nodes g) ≡ true
    → OnWay g fuel (name ∷ visiting)
OnWay-deeper g fuel visiting name w fresh node = record {
  differ = (fresh, w.differ);
  known = λ v m. elim (contains-cases v name visiting m) [
    | inl e ↦ subst (λ z. contains z (nodes g) ≡ true) e node
    | inr t ↦ w.known v t
  ];
  enough = omega (arith, w.enough);
}

Refuses-visit :
    (g : Graph)
    → Closed g
    → (fuel : ℕ) (visiting visited : List String) (name : String) → OnWay g fuel visiting
    → contains name (nodes g) ≡ true
    → Raises Refuses (visit g fuel visiting visited name)
unfolding visit
Refuses-visit g c zero visiting visited name w node = absurd (OnWay-zero g visiting w)
Refuses-visit g c (suc fuel) visiting visited name w node =
    true-false (Raises Refuses) (contains name visiting) _ _ (λ _. tt)
      (λ fresh.
        true-false (Raises Refuses) (contains name visited) _ _ (λ _. tt)
          (λ _.
            none-some (Raises Refuses) (children g name) _ _ (children-nodes g name node)
              (λ cs found.
                Raises-bind Refuses (fold_result (visit g fuel (name ∷ visiting)) visited cs)
                  (λ after. ok (name ∷ after))
                  (Raises-fold Refuses (visit g fuel (name ∷ visiting)) cs
                    (λ v child m.
                      Refuses-visit g c fuel (name ∷ visiting) v child
                        (OnWay-deeper g fuel visiting name w fresh node)
                        (c name child (cs, found, m)))
                    visited)
                  (λ after _. tt))))

pub Refuses-visit_all : (g : Graph) → Closed g → Raises Refuses (visit_all g)
unfolding visit_all contains
Refuses-visit_all g c =
    Raises-fold Refuses (visit g (suc (length g)) []) (nodes g)
      (λ visited name m.
        Refuses-visit g c (suc (length g)) [] visited name
          (record { differ = tt; known = λ v e. cc; enough = omega arith }) m)
      []
