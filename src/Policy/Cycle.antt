-- ===== src/Policy/Cycle.antt =====
-- The search of `validate` for a cycle of groups. `graph[name]` is the groups among a group's members.
-- Python's sets are lists here, and `visiting` is an argument, since a call takes back what it added.
pub mod Paths
pub mod Order
pub mod Blame
pub mod Fuel
pub mod Decides
use proxy_gateway_plus.Prelude.{
  ℕ, zero, suc, String, Bool, true, false, Option, none, some, List, [], ◌∷◌, if◌then◌else◌, ◌==◌,
  String_eq, length, contains, Result, ok, err, ◌>>=◌,
}
use proxy_gateway_plus.Policy.{ModelError, invalid, key_error, recursion_error, fold_result}

abbrev pub Graph : Type 0
Graph = List (String × List String)

unfoldable pub children : Graph → String → Option (List String)
children [] name = none
children ((n, cs) ∷ g) name = if n == name then some cs else children g name

unfoldable pub nodes : Graph → List String
nodes [] = []
nodes ((n, cs) ∷ g) = n ∷ nodes g

-- `visit(name)`, which returns the names that are visited afterwards; without fuel it raises what
-- Python does when its stack is full.
unfoldable pub visit :
    Graph → ℕ → List String → List String → String → Result ModelError (List String)
visit g zero visiting visited name = err recursion_error
visit g (suc fuel) visiting visited name = elim (contains name visiting) [
  | true ↦ err (invalid "policy groups contain a dependency cycle")
  | false ↦ elim (contains name visited) [
    | true ↦ ok visited
    | false ↦ elim (children g name) [
      | none ↦ err key_error
      | some cs ↦ elim (fold_result (visit g fuel (name ∷ visiting)) visited cs) [
        | err e ↦ err e
        | ok visited' ↦ ok (name ∷ visited')
      ]
    ]
  ]
]

-- `for name in graph: visit(name)`
unfoldable pub visit_all : Graph → Result ModelError (List String)
visit_all g = fold_result (visit g (suc (length g)) []) [] (nodes g)
