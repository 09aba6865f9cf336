-- ===== src/Policy/Validate/Metadata.antt =====
-- The metadata and the groups of a model, as validation reads them.
use proxy_gateway_plus.Prelude.{
  ok-injective, String, ◌&&◌, List, [], ◌∷◌, ◌++◌, String_eq, ok, ◌≡◌, refl, sym, ap, ◌∙◌, subst,
  All, Ensures, Ensures-bind, Ensures-guard, Ensures-step, Ensures-eq,
}
use proxy_gateway_plus.Prelude.Json.{
  Json, null, bool, int, float, not_finite, str, arr, obj, Fields, keys,
}
use proxy_gateway_plus.Policy.{
  ModelError, fetch, iterate, as_dict, is_current, same_set, v3_meta_fields, v3_mihomo_fields,
  texts, characters, fold_result,
}
use proxy_gateway_plus.Policy.Names.{Unicode}
use proxy_gateway_plus.Policy.Group.{policy_groups, list_or_empty, groups_of_meta}
use proxy_gateway_plus.Policy.Cycle.{visit_all}
use proxy_gateway_plus.Policy.Cycle.Paths.{Walk}
use proxy_gateway_plus.Policy.Cycle.Order.{visit_all_acyclic}
use proxy_gateway_plus.Policy.Validate.{
  Scan, group_names, block_tags, build_graph, check_namespace, check_groups, read_mihomo, read_meta,
  scan_group,
}
use proxy_gateway_plus.Policy.Validate.Reading.{parts_of}
use proxy_gateway_plus.Policy.Validate.Parts.{parts-Reading, Fits-build, GroupReads}
use proxy_gateway_plus.Policy.Validate.Namespace.{AreFree-check}
use proxy_gateway_plus.Policy.Validate.Valid.{groups_of, GroupsFit}
use proxy_gateway_plus.Policy.Rename.{key_names, providers_of_mihomo, providers_of_meta}

pub GroupsFit-check :
    (u : Unicode) (outbounds : List Json) (scan : Scan) (items : List Json)
    (providers rule_providers : List String)
    → Ensures
        (λ targets.
          (targets ≡ scan.routable ++ group_names (parts_of items))
          × GroupsFit scan.names scan.routable
              (block_tags outbounds)
              providers
              rule_providers
              (parts_of items)
          × All GroupReads items)
        (check_groups u outbounds scan items providers rule_providers)
unfolding check_groups
GroupsFit-check u outbounds scan items providers rule_providers =
    Ensures-step _ (fold_result (scan_group u) [] items) _ (λ parts e.
      let (read, reads) = parts-Reading u items parts e in
      Ensures-bind _ _ (check_namespace u scan.names (group_names parts) providers rule_providers) _
        (AreFree-check u scan.names (group_names parts) providers rule_providers)
        (λ _ free.
          Ensures-bind _ _
            (build_graph ("REJECT" ∷ scan.routable ++ group_names parts) (group_names parts)
              (block_tags outbounds) providers parts)
            _
            (Fits-build ("REJECT" ∷ scan.routable ++ group_names parts) (group_names parts)
              (block_tags outbounds) providers parts)
            (λ graph (g, fit). Ensures-step _ (visit_all graph) _ (λ vs visited.
              subst
                (λ ps.
                  (scan.routable ++ group_names parts ≡ scan.routable ++ group_names ps)
                  × GroupsFit scan.names scan.routable (block_tags outbounds) providers
                      rule_providers ps
                  × All GroupReads items)
                read
                (
                  refl,
                  record {
                    free = free;
                    members = fit;
                    acyclic =
                        subst (λ d. (name : String) → ¬ Walk d name name) g
                          (visit_all_acyclic graph vs visited);
                  },
                  reads,
                )))))

as_dict-Fields : (v : Json) (e : ModelError) → Ensures (λ fs. v ≡ obj fs) (as_dict v e)
as_dict-Fields (obj fs) e = refl
as_dict-Fields null e = tt
as_dict-Fields (bool b) e = tt
as_dict-Fields (int n) e = tt
as_dict-Fields (float n) e = tt
as_dict-Fields not_finite e = tt
as_dict-Fields (str t) e = tt
as_dict-Fields (arr xs) e = tt

abbrev pub AreProviders : (String → List String) → List String × List String → Type 0
AreProviders read (providers, rule_providers) =
    (providers ≡ read "proxy-providers") × (rule_providers ≡ read "rule-providers")

AreProviders-read : (v : Json) → Ensures (AreProviders (providers_of_mihomo v)) (read_mihomo v)
unfolding read_mihomo
AreProviders-read (obj mihomo) = Ensures-guard _ (same_set (keys mihomo) v3_mihomo_fields) _ _ (λ _.
    Ensures-bind (λ fs. fetch mihomo "proxy-providers" ≡ obj fs)
      (AreProviders (providers_of_mihomo (obj mihomo))) (as_dict _ _) _
      (as_dict-Fields (fetch mihomo "proxy-providers") _)
      (λ ps p.
        Ensures-bind (λ fs. fetch mihomo "rule-providers" ≡ obj fs)
          (AreProviders (providers_of_mihomo (obj mihomo))) (as_dict _ _) _
          (as_dict-Fields (fetch mihomo "rule-providers") _)
          (λ rs r. (ap key_names (sym p), ap key_names (sym r)))))
AreProviders-read null = tt
AreProviders-read (bool b) = tt
AreProviders-read (int n) = tt
AreProviders-read (float n) = tt
AreProviders-read not_finite = tt
AreProviders-read (str t) = tt
AreProviders-read (arr xs) = tt

pub AreProviders-meta :
    (v : Json)
    → Ensures
        (λ (meta, names). (v ≡ obj meta) × AreProviders (providers_of_meta v) names)
        (read_meta v)
unfolding read_meta
AreProviders-meta (obj meta) =
    Ensures-guard _ (is_current (fetch meta "schema") && same_set (keys meta) v3_meta_fields) _ _
      (λ _.
        Ensures-bind _ _ (read_mihomo (fetch meta "mihomo")) _
          (AreProviders-read (fetch meta "mihomo")) (λ names a. (refl, a)))
AreProviders-meta null = tt
AreProviders-meta (bool b) = tt
AreProviders-meta (int n) = tt
AreProviders-meta (float n) = tt
AreProviders-meta not_finite = tt
AreProviders-meta (str t) = tt
AreProviders-meta (arr xs) = tt

-- What is iterated over but is not a list has no groups.
parts_of-texts : (ss : List String) → parts_of (texts ss) ≡ []
parts_of-texts [] = refl
parts_of-texts (s ∷ ss) = parts_of-texts ss

parts_of-characters : (s : String) → parts_of (characters s) ≡ []
parts_of-characters String.[] = refl
parts_of-characters (String.◌∷◌ c s) = parts_of-characters s

parts_of-iterate :
    (v : Json) → Ensures (λ items. parts_of items ≡ parts_of (list_or_empty v)) (iterate v)
parts_of-iterate (arr xs) = refl
parts_of-iterate (obj fs) = parts_of-texts (keys fs)
parts_of-iterate (str s) = parts_of-characters s
parts_of-iterate null = tt
parts_of-iterate (bool b) = tt
parts_of-iterate (int n) = tt
parts_of-iterate (float n) = tt
parts_of-iterate not_finite = tt

pub reads_of-iterate :
    (v : Json) (items : List Json)
    → iterate v ≡ ok items
    → All GroupReads items
    → All GroupReads (list_or_empty v)
reads_of-iterate (arr xs) items e h = subst (All GroupReads) (sym (ok-injective e)) h
reads_of-iterate (obj fs) items e h = tt
reads_of-iterate (str s) items e h = tt
reads_of-iterate null items e h = tt
reads_of-iterate (bool b) items e h = tt
reads_of-iterate (int n) items e h = tt
reads_of-iterate (float n) items e h = tt
reads_of-iterate not_finite items e h = tt

-- The groups of a model whose metadata is known.
pub groups_of-iterate :
    (model meta : Fields) (items : List Json)
    → fetch model "_pdg" ≡ obj meta
    → iterate (fetch meta "policy-groups") ≡ ok items
    → parts_of items ≡ groups_of model
unfolding policy_groups
groups_of-iterate model meta items m e =
    Ensures-eq _ (iterate (fetch meta "policy-groups")) items
      (parts_of-iterate (fetch meta "policy-groups")) e
    ∙ ap (λ v. parts_of (groups_of_meta v)) (sym m)
