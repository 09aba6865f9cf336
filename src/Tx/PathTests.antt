-- ===== src/Tx/PathTests.antt =====
-- Names of targets, resolved.
use proxy_gateway_plus.Prelude.{
  false, [], ◌∷◌, ◌++◌, ok, err, ◌≡◌, refl, Ensures, list_beq, contains,
}
use proxy_gateway_plus.Tx.Whitelist.{
  Text, codes, shared_mode, bad_name, resolve_target, resolve_static, resolve_provider,
  resolve_rule, in_directory, after_prefix, is_rule, matches, has_form, is_word, is_unsafe,
}
use proxy_gateway_plus.Tx.Placed.{Allowed, resolve_target-Allowed}

abbrev certs : Text
certs = codes "/etc/mosdns/certs"

climbs_out : resolve_target [] certs (codes "mosdns_rule:../a.txt") ≡ err bad_name
unfolding resolve_target resolve_static resolve_provider resolve_rule in_directory after_prefix
    is_rule matches has_form is_word is_unsafe list_beq contains
climbs_out = refl

-- A name that ends in a newline is let through, and the path ends in it too.
ends_in_newline :
    resolve_target [] certs (codes "mosdns_rule:a.txt" ++ 10 ∷ [])
    ≡ ok (record {
      path = codes "/etc/mosdns/rules/a.txt" ++ 10 ∷ [];
      mode = shared_mode;
      secret = false;
    })
unfolding resolve_target resolve_static resolve_provider resolve_rule in_directory after_prefix
    is_rule matches has_form is_word is_unsafe list_beq contains
ends_in_newline = refl

-- Two names of one file.
two_names :
    resolve_target [] certs (codes "ruleset_direct")
    ≡ resolve_target [] certs (codes "mosdns_rule:ruleset_direct.txt")
unfolding resolve_target resolve_static resolve_provider resolve_rule in_directory after_prefix
    is_rule matches has_form is_word is_unsafe list_beq contains
two_names = refl

resolve_target-Allowed_example :
    Ensures
      (Allowed [] certs (codes "mosdns_rule:a.txt"))
      (resolve_target [] certs (codes "mosdns_rule:a.txt"))
resolve_target-Allowed_example = resolve_target-Allowed [] certs (codes "mosdns_rule:a.txt")
