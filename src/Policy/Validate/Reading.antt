-- ===== src/Policy/Validate/Reading.antt =====
-- What a valid model says, read without any check: the tags of its outbounds, its exits, and its
-- groups with their members. The theorems about `validate` are stated in these terms.
use proxy_gateway_plus.Prelude.{
  String, Bool, true, false, Option, none, some, List, [], ◌∷◌, ◌++◌, map, String_eq, contains,
  Result, ok, err,
}
use proxy_gateway_plus.Prelude.Json.{Json, str, arr, obj, nil, Fields}
use proxy_gateway_plus.Policy.{ModelError, routable_outbound_types, get_or, fetch, is_in}
use proxy_gateway_plus.Policy.Group.{Part, text_list}
use proxy_gateway_plus.Policy.Cycle.{Graph}
use proxy_gateway_plus.Policy.Validate.{keep_if}

-- The items that a function finds, one after the other.
abbrev pub collect {ℓ κ} : {A : Type ℓ} {C : Type κ} → (A → List C) → List A → List C
collect f [] = []
collect f (x ∷ xs) = f x ++ collect f xs

abbrev pub text_of : Json → List String
text_of (str s) = s ∷ []
text_of _ = []

abbrev pub tag_of : Json → List String
tag_of (obj outbound) = text_of (fetch outbound "tag")
tag_of _ = []

abbrev pub is_ok_true : Result ModelError Bool → Bool
is_ok_true (ok b) = b
is_ok_true (err e) = false

abbrev pub is_exit : Fields → Bool
is_exit outbound = is_ok_true (is_in (fetch outbound "type") routable_outbound_types)

abbrev pub exit_of : Json → List String
exit_of (obj outbound) = elim (is_exit outbound) [
  | true ↦ text_of (fetch outbound "tag")
  | false ↦ []
]
exit_of _ = []

abbrev pub texts_or_empty : Option (List String) → List String
texts_or_empty none = []
texts_or_empty (some ss) = ss

abbrev pub part_of : Json → List Part
part_of (obj group) =
    map
      (λ name. record {
        name = name;
        proxies = texts_or_empty (text_list (get_or group "proxies" (arr nil)));
        uses = texts_or_empty (text_list (get_or group "use" (arr nil)));
      })
      (text_of (fetch group "name"))
part_of _ = []

abbrev pub tags_of : List Json → List String
tags_of = collect tag_of

abbrev pub exits_in : List Json → List String
exits_in = collect exit_of

abbrev pub parts_of : List Json → List Part
parts_of = collect part_of

-- Which group has which groups as members.
abbrev pub dependencies : List String → List Part → Graph
dependencies groups = map (λ (p : Part). (p.name, keep_if (λ item. contains item groups) p.proxies))
