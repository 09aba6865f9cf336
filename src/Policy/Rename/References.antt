-- ===== src/Policy/Rename/References.antt =====
-- The references of a model that `rename_references` is about, read without any check: the members of
-- its groups, the target `final` and the targets of the rules.
use proxy_gateway_plus.Prelude.{List, [], ◌∷◌, ◌++◌, Result, ok, err, String_eq}
use proxy_gateway_plus.Prelude.Json.{Json, arr, obj, nil, Fields}
use proxy_gateway_plus.Policy.{ModelError, get_or, fetch, iterate}
use proxy_gateway_plus.Policy.Group.{policy_groups, list_or_empty}
use proxy_gateway_plus.Policy.Validate.Reading.{collect}

abbrev pub items_or_empty : Result ModelError (List Json) → List Json
items_or_empty (ok items) = items
items_or_empty (err e) = []

abbrev pub members_of : Json → List Json
members_of (obj group) = items_or_empty (iterate (get_or group "proxies" (arr nil)))
members_of _ = []

abbrev pub rule_target : Json → List Json
rule_target (obj rule) = fetch rule "outbound" ∷ []
rule_target _ = []

abbrev pub route_targets : Json → List Json
route_targets (obj route) =
    fetch route "final" ∷ collect rule_target (list_or_empty (get_or route "rules" (arr nil)))
route_targets _ = []

unfoldable pub references : Fields → List Json
references model = collect members_of (policy_groups model) ++ route_targets (fetch model "route")
