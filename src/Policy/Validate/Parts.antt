-- ===== src/Policy/Validate/Parts.antt =====
-- The loops over the groups: what they accept is what the groups say, each member is known, and the
-- graph is the groups' dependencies.
use proxy_gateway_plus.Prelude.{
  String, true, not, ◌&&◌, some, List, [], ◌∷◌, ◌++◌, map, String_eq, leb, all, All, length,
  contains, ok, ◌≡◌, refl, sym, ap, ◌∙◌, Ensures, Ensures-bind, Ensures-guard, Ensures-step,
  Ensures-weaken, Ensures-eq,
}
use proxy_gateway_plus.Prelude.Json.{
  Json, null, bool, int, float, not_finite, str, arr, obj, nil, Fields,
}
use proxy_gateway_plus.Policy.{ModelError, get_or, fetch, is_in, fold_result}
use proxy_gateway_plus.Policy.Names.{Unicode, validate_name}
use proxy_gateway_plus.Policy.Group.{
  Part, text_list, group_types, has_group_fields, is_unique, is_empty, member_lists, check_options,
  validate_group,
}
use proxy_gateway_plus.Policy.Cycle.Paths.{none-some}
use proxy_gateway_plus.Policy.Validate.{keep_if, is_reject, scan_group, check_part, build_graph}
use proxy_gateway_plus.Policy.Validate.Reading.{
  text_of, texts_or_empty, part_of, parts_of, dependencies,
}
use proxy_gateway_plus.Policy.Validate.Scanned.{fold-collects, fold-All, validate_name-Text}

abbrev AreMembers : Fields → List String × List String → Type 0
AreMembers group (proxies, uses) =
    (text_list (get_or group "proxies" (arr nil)) ≡ some proxies)
    × (text_list (get_or group "use" (arr nil)) ≡ some uses)

AreMembers-member_lists :
    (group : Fields) (e : ModelError) → Ensures (AreMembers group) (member_lists group e)
unfolding member_lists
AreMembers-member_lists group e =
    none-some (Ensures (AreMembers group)) (text_list (get_or group "proxies" (arr nil))) _ _
      (λ _. tt)
      (λ proxies p.
        none-some (Ensures (AreMembers group)) (text_list (get_or group "use" (arr nil))) _ _
          (λ _. tt)
          (λ uses q.
            Ensures-guard (AreMembers group)
              (is_unique proxies && is_unique uses && not (is_empty proxies && is_empty uses)) e
              (ok (proxies, uses)) (λ _. (p, q))))

part_of_group :
    (group : Fields) (name : String) (proxies uses : List String)
    → fetch group "name" ≡ str name
    → AreMembers group (proxies, uses)
    → part_of (obj group) ≡ record { name = name; proxies = proxies; uses = uses } ∷ []
part_of_group group name proxies uses n (p, q) =
    ap
      (λ v. map (λ s. record { name = s; proxies = read "proxies"; uses = read "use" }) (text_of v))
      n
    ∙ ap (λ o. record { name = name; proxies = texts_or_empty o; uses = read "use" } ∷ []) p
    ∙ ap (λ o. record { name = name; proxies = proxies; uses = texts_or_empty o } ∷ []) q
  where
    read : String → List String
    read key = texts_or_empty (text_list (get_or group key (arr nil)))

-- A group is a dict whose name is a text.
abbrev pub GroupReads : Json → Type 0
GroupReads item =
    (group : Fields) × (item ≡ obj group) × ((t : String) × (fetch group "name" ≡ str t))

validate_group-Reading :
    (u : Unicode) (item : Json)
    → Ensures (λ part. (part_of item ≡ part ∷ []) × GroupReads item) (validate_group u item)
unfolding validate_group
validate_group-Reading u (obj group) =
    Ensures-bind (λ name. fetch group "name" ≡ str name) _
      (validate_name u (fetch group "name") "group name") _
      (validate_name-Text u (fetch group "name") "group name")
      (λ name n. Ensures-step _ (is_in (fetch group "type") group_types) _ (λ known _.
        Ensures-guard _ (known && has_group_fields (fetch group "type") group) _ _ (λ _.
          Ensures-bind (AreMembers group) _ (member_lists group _) _
            (AreMembers-member_lists group _)
            (λ (proxies, uses) a.
              Ensures-step _ (check_options group name) _
                (λ _ _. (part_of_group group name proxies uses n a, (group, refl, (name, n))))))))
validate_group-Reading u null = tt
validate_group-Reading u (bool b) = tt
validate_group-Reading u (int n) = tt
validate_group-Reading u (float n) = tt
validate_group-Reading u not_finite = tt
validate_group-Reading u (str t) = tt
validate_group-Reading u (arr xs) = tt

scan_group-Reading :
    (u : Unicode) (parts : List Part) (item : Json)
    → Ensures (λ after. (after ≡ parts ++ part_of item) × GroupReads item) (scan_group u parts item)
unfolding scan_group
scan_group-Reading u parts item =
    Ensures-bind (λ part. (part_of item ≡ part ∷ []) × GroupReads item) _ (validate_group u item) _
      (validate_group-Reading u item)
      (λ part (e, reads).
        Ensures-guard _ (not (contains part.name (map (λ (p : Part). p.name) parts))) _ _
          (λ _. (ap (λ ps. parts ++ ps) (sym e), reads)))

-- The parts that the loop over the groups collects are what the groups say.
pub parts-Reading :
    (u : Unicode) (items : List Json) (parts : List Part)
    → fold_result (scan_group u) [] items ≡ ok parts
    → (parts ≡ parts_of items) × All GroupReads items
parts-Reading u items parts e = (
  Ensures-eq _ (fold_result (scan_group u) [] items) parts
      (fold-collects (λ (ps : List Part). ps) part_of (scan_group u)
        (λ ps x. Ensures-weaken _ _ (scan_group u ps x) (λ _ r. r.0) (scan_group-Reading u ps x))
        items [])
      e,
  Ensures-eq _ (fold_result (scan_group u) [] items) parts
      (fold-All GroupReads (scan_group u)
        (λ ps x. Ensures-weaken _ _ (scan_group u ps x) (λ _ r. r.1) (scan_group-Reading u ps x))
        items [])
      e,
)

-- The members are known, at most one of them stands for REJECT, and the providers are known.
abbrev pub Fits : List String → List String → List String → Part → Type 0
Fits known blocks providers part =
    (all (λ item. contains item known) part.proxies ≡ true)
    × (leb (length (keep_if (is_reject blocks) part.proxies)) 1 ≡ true)
    × (all (λ item. contains item providers) part.uses ≡ true)

module _ (known groups blocks providers : List String) where
  Fits-check :
      (part : Part)
      → Ensures
          (λ entry.
            (entry ≡ (part.name, keep_if (λ item. contains item groups) part.proxies))
            × Fits known blocks providers part)
          (check_part known groups blocks providers part)
  unfolding check_part
  Fits-check part = Ensures-guard _ (all (λ item. contains item known) part.proxies) _ _ (λ k.
      Ensures-guard _ (leb (length (keep_if (is_reject blocks) part.proxies)) 1) _ _ (λ r.
        Ensures-guard _ (all (λ item. contains item providers) part.uses) _ _
          (λ p. (refl, (k, r, p)))))

  pub Fits-build :
      (parts : List Part)
      → Ensures
          (λ graph. (graph ≡ dependencies groups parts) × All (Fits known blocks providers) parts)
          (build_graph known groups blocks providers parts)
  unfolding build_graph
  Fits-build [] = (refl, tt)
  Fits-build (part ∷ parts) =
      Ensures-bind _ _ (check_part known groups blocks providers part) _ (Fits-check part)
        (λ entry (e, f).
          Ensures-bind _ _ (build_graph known groups blocks providers parts) _ (Fits-build parts)
            (λ graph (e', fs). (λ i. e i ∷ e' i, (f, fs))))
