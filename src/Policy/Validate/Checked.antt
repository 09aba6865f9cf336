-- ===== src/Policy/Validate/Checked.antt =====
-- `validate` as a whole: what a model that it accepts says.
use mathlib.Core.Path.{transport}
use proxy_gateway_plus.Prelude.{
  String, not, List, ◌++◌, String_eq, contains, ok, ◌≡◌, sym, ap, ◌∙◌, subst, All, Ensures,
  Ensures-bind, Ensures-guard, Ensures-step, Ensures-weaken, Ensures-eq,
}
use proxy_gateway_plus.Prelude.Json.{Json, arr, obj, Items, Fields}
use proxy_gateway_plus.Policy.{invalid, fetch, iterate, as_list, reserved_targets, fold_result}
use proxy_gateway_plus.Policy.Names.{Unicode}
use proxy_gateway_plus.Policy.Group.{Part, direct_tag, policy_groups, list_or_empty, groups_of_meta}
use proxy_gateway_plus.Policy.Validate.{
  Scan, group_names, block_tags, check_groups, check_route, read_meta, scan_outbound,
  validate_fields, validate,
}
use proxy_gateway_plus.Policy.Validate.Reading.{tags_of, exits_in, parts_of}
use proxy_gateway_plus.Policy.Validate.Scanned.{no_scan, scan-Reading, OutboundReads}
use proxy_gateway_plus.Policy.Validate.Parts.{GroupReads}
use proxy_gateway_plus.Policy.Validate.Valid.{
  outbounds_of, groups_of, targets_of, GroupsFit, IsValid,
}
use proxy_gateway_plus.Policy.Validate.Targets.{RouteFits, Fits-route, as_list-Items}
use proxy_gateway_plus.Policy.Rename.{provider_names}
use proxy_gateway_plus.Policy.Validate.Metadata.{
  AreProviders, AreProviders-meta, GroupsFit-check, groups_of-iterate, reads_of-iterate,
}

collected :
    (model : Fields) (outbounds : List Json) (scan : Scan) (names : List String × List String)
    (parts : List Part) (targets : List String)
    → outbounds ≡ outbounds_of model
    → scan.names ≡ tags_of outbounds
    → scan.routable ≡ exits_in outbounds
    → AreProviders (provider_names model) names
    → parts ≡ groups_of model
    → targets ≡ scan.routable ++ group_names parts
    → GroupsFit scan.names scan.routable (block_tags outbounds) names.0 names.1 parts
    → RouteFits targets (fetch model "route")
    → ((items : Items) × (fetch model "outbounds" ≡ arr items))
    → All OutboundReads outbounds
    → All GroupReads (policy_groups model)
    → IsValid model
collected model outbounds scan names parts targets o n x (p, r) g t fit route items each gs =
    record {
      outbounds = items;
      each_outbound = subst (All OutboundReads) o each;
      each_group = gs;
      free = whole.free;
      members = whole.members;
      acyclic = whole.acyclic;
      route = subst (λ ts. RouteFits ts (fetch model "route")) (t ∙ moved) route;
    }
  where
    exits : scan.routable ≡ exits_in (outbounds_of model)
    exits = x ∙ ap exits_in o

    moved : scan.routable ++ group_names parts ≡ targets_of model
    moved = λ i. exits i ++ group_names (g i)

    whole :
        GroupsFit
          (tags_of (outbounds_of model))
          (exits_in (outbounds_of model))
          (block_tags (outbounds_of model))
          (provider_names model "proxy-providers")
          (provider_names model "rule-providers")
          (groups_of model)
    whole =
        transport
          (λ i. GroupsFit ((n ∙ ap tags_of o) i) (exits i) (block_tags (o i)) (p i) (r i) (g i)) fit

IsValid-validate_fields :
    (u : Unicode) (model : Fields) → Ensures (λ _. IsValid model) (validate_fields u model)
unfolding validate_fields policy_groups
IsValid-validate_fields u model =
    Ensures-bind _ _ (as_list (fetch model "outbounds") (invalid "invalid model")) _
      (as_list-Items (fetch model "outbounds") (invalid "invalid model"))
      (λ outbounds (items, is_list, listed). Ensures-step _ (direct_tag model) _ (λ direct _.
        Ensures-guard _ (not (contains direct reserved_targets)) _ _ (λ _.
          Ensures-bind _ _ (read_meta (fetch model "_pdg")) _
            (AreProviders-meta (fetch model "_pdg"))
            (λ (meta, names) (m, known).
              Ensures-step _ (fold_result (scan_outbound u) no_scan outbounds) _ (λ scan scanned.
                Ensures-step _ (iterate (fetch meta "policy-groups")) _ (λ groups e.
                  Ensures-bind _ _ (check_groups u outbounds scan groups names.0 names.1) _
                    (GroupsFit-check u outbounds scan groups names.0 names.1)
                    (λ targets (t, fit, reads).
                      Ensures-weaken _ _ (check_route targets (fetch model "route"))
                        (λ _ route.
                          let (n, x, _, each) = scan-Reading u outbounds scan scanned in
                          collected model outbounds scan names (parts_of groups) targets
                            (sym listed ∙ ap list_or_empty (sym is_list)) n x known
                            (groups_of-iterate model meta groups m e) t fit route (items, is_list)
                            each
                            (subst (λ v. All GroupReads (groups_of_meta v)) (sym m)
                              (reads_of-iterate (fetch meta "policy-groups") groups e reads)))
                        (Fits-route targets (fetch model "route")))))))))

-- A model that is accepted is valid.
pub IsValid-validate :
    (u : Unicode) (model : Fields) → validate u (obj model) ≡ ok tt → IsValid model
unfolding validate
IsValid-validate u model e =
    Ensures-eq (λ _. IsValid model) (validate_fields u model) tt (IsValid-validate_fields u model) e
