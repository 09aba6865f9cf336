-- ===== src/Policy/Cycle/Paths.antt =====
-- Walks along the edges of a graph, the independent view of what the search looks for.
use proxy_gateway_plus.Prelude.{
  String, Bool, true, false, Option, none, some, List, [], ◌∷◌, String_eq, ◌≡◌, refl, contains,
  arith,
}
use proxy_gateway_plus.Policy.Cycle.{Graph, children, nodes}

-- `name` depends on `child` at once.
abbrev pub Next : Graph → String → String → Type 0
Next g name child = (cs : List String) × (children g name ≡ some cs) × (contains child cs ≡ true)

pub data Walk (g : Graph) : String → String → Type 0 where
  edge : {x y : String} → Next g x y → Walk g x y
  via : {x y z : String} → Next g x y → Walk g y z → Walk g x z

pub Walk-append : (g : Graph) {x y z : String} → Walk g x y → Next g y z → Walk g x z
Walk-append g (edge n) m = via n (edge m)
Walk-append g (via n p) m = via n (Walk-append g p m)

-- A name that has members is a node.
pub nodes-children :
    (g : Graph) (name : String) (cs : List String)
    → children g name ≡ some cs
    → contains name (nodes g) ≡ true
unfolding children nodes contains
nodes-children [] name cs h = cc
nodes-children ((n, ds) ∷ g) name cs h = ground (arith, nodes-children g name cs)

-- What holds of each branch of a case holds of the case.
pub true-false {ℓ κ} :
    {A : Type ℓ} (P : A → Type κ) (b : Bool) (x y : A)
    → (b ≡ true → P x)
    → (b ≡ false → P y)
    → P (elim b [ true ↦ x | false ↦ y ])
true-false P true x y p q = p refl
true-false P false x y p q = q refl

pub none-some {ℓ κ μ} :
    {A : Type ℓ} {B : Type κ} (P : B → Type μ) (o : Option A) (x : B) (f : A → B)
    → (o ≡ none → P x)
    → ((a : A) → o ≡ some a → P (f a))
    → P (elim o [ none ↦ x | some a ↦ f a ])
none-some P none x f p q = p refl
none-some P (some a) x f p q = q a refl
