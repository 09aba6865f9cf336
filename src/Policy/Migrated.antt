-- ===== src/Policy/Migrated.antt =====
-- What `migrate` returns, and what `routable_tags` says of it.
use proxy_gateway_plus.Prelude.{
  String_eq, ok, ◌>>=◌, ◌≡◌, Ensures, Ensures-guard, Ensures-step, Ensures-eq,
}
use proxy_gateway_plus.Prelude.Json.{
  Json, null, bool, int, float, not_finite, str, arr, obj, Fields, end, pos, keys,
}
use proxy_gateway_plus.Policy.{get_or, fetch, or_else, as_list, as_dict, subset, v3_mihomo_fields}
use proxy_gateway_plus.Policy.Names.{Unicode}
use proxy_gateway_plus.Policy.Group.{direct_tag, validate_declared_schema_shape}
use proxy_gateway_plus.Policy.Canonical.{canonicalize_user_names}
use proxy_gateway_plus.Policy.Migrate.{
  schema_of, allowed_mihomo, take_groups, normalize_mihomo, assemble, migrate_fields, migrate,
}
use proxy_gateway_plus.Policy.Validate.{validate}
use proxy_gateway_plus.Policy.Validate.Checked.{IsValid-validate}
use proxy_gateway_plus.Policy.Validate.Valid.{IsValid}

-- The last step of `migrate` and of `rebind_direct`.
pub checked_last :
    (P : Fields → Type 0) (u : Unicode) (result : Fields)
    → (IsValid result → P result)
    → Ensures P (validate u (obj result) >>= λ _. ok result)
checked_last P u result k =
    Ensures-step P (validate u (obj result)) (λ _. ok result)
      (λ t e. k (IsValid-validate u result e))

IsValid-migrate_fields : (u : Unicode) (model : Fields) → Ensures IsValid (migrate_fields u model)
unfolding migrate_fields
IsValid-migrate_fields u model =
    Ensures-step _ (validate_declared_schema_shape (obj model)) _ (λ _ _.
      Ensures-step _ (as_list (fetch model "outbounds") _) _ (λ outbounds _.
        Ensures-step _ (as_dict (fetch model "route") _) _ (λ route _.
          Ensures-step _ (direct_tag model) _ (λ _ _.
            Ensures-step _ (as_dict (or_else (fetch model "_pdg") (obj end)) _) _ (λ meta _.
              Ensures-step _ (schema_of (get_or meta "schema" (int (pos 1)))) _ (λ schema _.
                Ensures-step _ (as_dict (or_else (fetch meta "mihomo") (obj end)) _) _ (λ mihomo _.
                  Ensures-guard _ (subset (keys mihomo) allowed_mihomo) _ _ (λ _.
                    Ensures-step _ (take_groups u model outbounds meta mihomo schema) _
                      (λ (groups, kept) _.
                        Ensures-step _ (normalize_mihomo u mihomo v3_mihomo_fields) _
                          (λ normalized _.
                            Ensures-step _ (canonicalize_user_names u kept groups normalized route)
                              _
                              (λ ((outs, gs), (mi, ro)) _.
                                checked_last IsValid u (assemble u model outs gs mi ro)
                                  (λ v. v))))))))))))

-- What migration returns is valid.
pub IsValid-migrate :
    (u : Unicode) (value : Json) (model : Fields) → migrate u value ≡ ok model → IsValid model
unfolding migrate
IsValid-migrate u (obj fs) model e =
    Ensures-eq IsValid (migrate_fields u fs) model (IsValid-migrate_fields u fs) e
IsValid-migrate u null model e = cc
IsValid-migrate u (bool b) model e = cc
IsValid-migrate u (int n) model e = cc
IsValid-migrate u (float n) model e = cc
IsValid-migrate u not_finite model e = cc
IsValid-migrate u (str t) model e = cc
IsValid-migrate u (arr xs) model e = cc
