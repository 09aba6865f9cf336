-- ===== src/Policy/Cycle/Decides.antt =====
-- The search decides whether the groups depend on each other in a circle.
use mathlib.Core.Option.{some-injective}
use proxy_gateway_plus.Prelude.{
  String, Bool, true, false, List, [], ◌∷◌, some, ◌==◌, String_eq, if◌then◌else◌, contains, ◌≡◌,
  refl, ◌↔◌, inl, inr, ap, ◌∙◌, Result, ok, err, Raises, sym, subst, Bool-cases,
}
use proxy_gateway_plus.Prelude.Contains.{contains-cases}
use proxy_gateway_plus.Policy.Group.{Part}
use proxy_gateway_plus.Policy.Validate.{keep_if, group_names}
use proxy_gateway_plus.Policy.Validate.Reading.{dependencies}
use proxy_gateway_plus.Policy.{
  ModelError, bad_name, invalid, type_error, attribute_error, key_error, recursion_error,
}
use proxy_gateway_plus.Policy.Cycle.{Graph, children, nodes, visit_all}
use proxy_gateway_plus.Policy.Cycle.Paths.{Walk}
use proxy_gateway_plus.Policy.Cycle.Order.{visit_all_acyclic}
use proxy_gateway_plus.Policy.Cycle.Blame.{Blames, Blames-visit_all}
use proxy_gateway_plus.Policy.Cycle.Fuel.{Closed, Refuses, Refuses-visit_all}

ends :
    (g : Graph) (r : Result ModelError (List String))
    → Raises (Blames g) r
    → Raises Refuses r
    → ((x : String) → ¬ Walk g x x)
    → (vs : List String) × (r ≡ ok vs)
ends g (ok vs) b f h = (vs, refl)
ends g (err (invalid m)) (x, w) f h = absurd (h x w)
ends g (err (bad_name r l)) b f h = absurd f
ends g (err type_error) b f h = absurd f
ends g (err attribute_error) b f h = absurd f
ends g (err key_error) b f h = absurd f
ends g (err recursion_error) b f h = absurd f

-- In a graph where each member is a node, the search ends without an exception if and only if no
-- walk leads back to where it began.
pub visit_all_decides :
    (g : Graph)
    → Closed g
    → ((vs : List String) × (visit_all g ≡ ok vs)) ↔ ((x : String) → ¬ Walk g x x)
visit_all_decides g c = (
  λ (vs, e). visit_all_acyclic g vs e,
  ends g (visit_all g) (Blames-visit_all g) (Refuses-visit_all g c),
)

-- What is kept passes the test.
keep_if-holds :
    (p : String → Bool) (xs : List String) (x : String)
    → contains x (keep_if p xs) ≡ true
    → p x ≡ true
unfolding contains
keep_if-holds p [] x m = cc
keep_if-holds p (y ∷ xs) x m = elim (Bool-cases (p y)) [
  | inr f ↦
      keep_if-holds p xs x
        (subst (λ b. contains x (if b then y ∷ keep_if p xs else keep_if p xs) ≡ true) f m)
  | inl t ↦
      elim (contains-cases x y (keep_if p xs)
        (subst (λ b. contains x (if b then y ∷ keep_if p xs else keep_if p xs) ≡ true) t m)) [
          | inl e ↦ subst (λ z. p z ≡ true) e t
          | inr h ↦ keep_if-holds p xs x h
        ]
]

children-dependencies :
    (groups : List String) (parts : List Part) (name : String) (cs : List String)
    → children (dependencies groups parts) name ≡ some cs
    → (child : String) → contains child cs ≡ true
    → contains child groups ≡ true
unfolding children
children-dependencies groups [] name cs e child m = cc
children-dependencies groups (part ∷ parts) name cs e child m =
    elim (Bool-cases (part.name == name)) [
      | inl t ↦
          keep_if-holds (λ item. contains item groups) part.proxies child
            (subst (λ ds. contains child ds ≡ true)
              (sym (some-injective _ _ (sym (chosen true t) ∙ e))) m)
      | inr f ↦ children-dependencies groups parts name cs (sym (chosen false f) ∙ e) child m
    ]
  where
    kept : List String
    kept = keep_if (λ item. contains item groups) part.proxies

    chosen :
        (b : Bool)
        → (part.name == name) ≡ b
        → children (dependencies groups (part ∷ parts)) name
          ≡ (if b then some kept else children (dependencies groups parts) name)
    chosen b t = ap (λ c. if c then some kept else children (dependencies groups parts) name) t

nodes-dependencies :
    (groups : List String) (parts : List Part)
    → nodes (dependencies groups parts) ≡ group_names parts
unfolding nodes
nodes-dependencies groups [] = refl
nodes-dependencies groups (part ∷ parts) = ap (λ r. part.name ∷ r) (nodes-dependencies groups parts)

-- The search over the groups of a model ends without an exception if and only if no walk along their
-- memberships leads from a group back to it.
pub dependencies_decides :
    (parts : List Part)
    → ((vs : List String) × (visit_all (dependencies (group_names parts) parts) ≡ ok vs))
      ↔ ((name : String) → ¬ Walk (dependencies (group_names parts) parts) name name)
dependencies_decides parts =
    visit_all_decides (dependencies (group_names parts) parts) (λ name child (cs, found, m).
      subst (λ ns. contains child ns ≡ true) (sym (nodes-dependencies (group_names parts) parts))
        (children-dependencies (group_names parts) parts name cs found child m))
