-- ===== src/Profile/Render.antt =====
-- `render_nft` of deploy/bot/pdgprofile.py: the template of the firewall table with the settings in it.
use proxy_gateway_plus.Prelude.{
  ℕ, zero, suc, ◌+◌, ◌-◌, Bool, false, not, ◌&&◌, ◌||◌, Option, none, some, List, [], ◌∷◌, ◌++◌,
  if◌then◌else◌, ◌==◌, ℕ_eq, List_eq, leb, length, map, Result, ok, err, ◌>>=◌, ◌>>◌, guard,
}
use proxy_gateway_plus.Prelude.Texts.{Text, codes, join_with, starts_with}
use proxy_gateway_plus.Profile.{ProfileError, wrong_setting, bad_template, unresolved, choice}
use proxy_gateway_plus.Profile.Numbers.{uint, decimal_text, hex_text}
use proxy_gateway_plus.Profile.Resolve.{Config, Network, nonempty, canonical_ipv4_cidr}

-- `text.replace(token, value)` of a token that is not empty: `skip` characters belong to the last match.
unfoldable pub replace_from : ℕ → Text → Text → Text → Text
replace_from skip token value [] = []
replace_from (suc skip) token value (c ∷ cs) = replace_from skip token value cs
replace_from zero token value (c ∷ cs) =
    let found = replace_from (length token - 1) token value cs in
    let other = replace_from zero token value cs in
    if starts_with (c ∷ cs) token then value ++ found else c ∷ other

abbrev pub replace : Text × Text → Text → Text
replace (token, value) = replace_from 0 token value

-- `text.count(token)`
unfoldable pub count_from : ℕ → Text → Text → ℕ
count_from skip token [] = 0
count_from (suc skip) token (c ∷ cs) = count_from skip token cs
count_from zero token (c ∷ cs) =
    let found = count_from (length token - 1) token cs in
    let other = count_from zero token cs in if starts_with (c ∷ cs) token then 1 + found else other

-- `text.split(token, 1)`, with `none` where the token is not in the text
abbrev pub onto_head : ℕ → Option (Text × Text) → Option (Text × Text)
onto_head c none = none
onto_head c (some (head, tail)) = some (c ∷ head, tail)

abbrev pub drop_text : ℕ → Text → Text
drop_text zero cs = cs
drop_text (suc n) [] = []
drop_text (suc n) (c ∷ cs) = drop_text n cs

unfoldable pub split_at : Text → Text → Option (Text × Text)
split_at token [] = none
split_at token (c ∷ cs) =
    let later = split_at token cs in
    if starts_with (c ∷ cs) token
    then some ([], drop_text (length token) (c ∷ cs))
    else onto_head c later

-- `re.search(r"__[A-Z0-9_]+__", text)`
abbrev pub is_name_code : ℕ → Bool
is_name_code n = (leb 65 n && leb n 90) || (leb 48 n && leb n 57) || n == 95

abbrev pub begins_rule : Text → Bool
begins_rule cs = starts_with cs (codes "__")

-- After the first two underscores: a character of the name and, there or later, two underscores.
unfoldable pub ends_name : Text → Bool
ends_name [] = false
ends_name (c ∷ cs) = is_name_code c && (begins_rule cs || ends_name cs)

unfoldable pub has_placeholder : Text → Bool
has_placeholder [] = false
has_placeholder (c ∷ cs) =
    (begins_rule (c ∷ cs) && ends_name (drop_text 2 (c ∷ cs))) || has_placeholder cs

abbrev pub spaced_ports : List ℕ → Text
spaced_ports ns = join_with (codes ", ") (map decimal_text ns)

-- `config["local_tcp_ports"]`
abbrev pub listening_ports : Text → List ℕ
listening_ports platform =
    if platform == codes "ios"
    then 53 ∷ 81 ∷ 853 ∷ 7893 ∷ 8445 ∷ []
    else 53 ∷ 853 ∷ 7893 ∷ 8445 ∷ []

unfoldable pub replacements : Config → Text → ℕ → Text → List (Text × Text)
replacements config internal_cidr ssh_port firewall_mode =
    (codes "__INTERNAL_CIDR__", internal_cidr)
    ∷ (codes "__SSH_PORT__", decimal_text ssh_port)
    ∷ (codes "__FIREWALL_MODE__", firewall_mode)
    ∷ (codes "__HIJACK_TLS_TCP_PORTS__", spaced_ports config.tls_ports)
    ∷ (codes "__HIJACK_HTTP_TCP_PORTS__", spaced_ports config.http_ports)
    ∷ (codes "__HIJACK_TCP_PORTS__", spaced_ports config.tcp_ports)
    ∷ (codes "__PDG_LOCAL_TCP_PORTS__", spaced_ports (listening_ports config.platform))
    ∷ (
      codes "__QUIC_INPUT_ACTION__",
      if config.quic_mode == codes "tproxy" then codes "accept" else codes "reject",
    )
    ∷ (codes "__QUIC_MARK__", hex_text config.mark)
    ∷ (codes "__QUIC_MARK_MASK__", hex_text config.mask)
    ∷ (codes "__QUIC_MARK_CLEAR_MASK__", hex_text config.mark_clear_mask)
    ∷ (codes "__QUIC_ROUTE_TABLE__", decimal_text config.route_table)
    ∷ (codes "__QUIC_RULE_PRIORITY__", decimal_text config.rule_priority)
    ∷ []

unfoldable pub replace_all : List (Text × Text) → Text → Text
replace_all [] text = text
replace_all (r ∷ rs) text = replace_all rs (replace r text)

abbrev pub quic_begin : Text
quic_begin = codes "# PDG_QUIC_TPROXY_BEGIN"

abbrev pub quic_end : Text
quic_end = codes "# PDG_QUIC_TPROXY_END"

-- The conditional part is left out where QUIC is rejected. Unpacking fails where the end stands before
-- the beginning.
unfoldable pub cut_end : Text → Text → Option (Text × Text) → Result ProfileError Text
cut_end quic_mode before none = err bad_template
cut_end quic_mode before (some (conditional, after)) =
    ok (before ++ (if quic_mode == codes "tproxy" then conditional else []) ++ after)

unfoldable pub cut_begin : Text → Option (Text × Text) → Result ProfileError Text
cut_begin quic_mode none = err bad_template
cut_begin quic_mode (some (before, remainder)) =
    cut_end quic_mode before (split_at quic_end remainder)

unfoldable pub resolve_conditional : Text → Text → Result ProfileError Text
resolve_conditional quic_mode text = do
  guard (count_from 0 quic_begin text == 1 && count_from 0 quic_end text == 1) bad_template
  cut_begin quic_mode (split_at quic_begin text)

-- An argument that the profile also has must be the same.
unfoldable pub same_as {ℓ} :
    {A : Type ℓ} → (A → A → Bool) → Option A → A → Result ProfileError (Unit {0})
same_as eq none a = ok tt
same_as eq (some b) a = guard (eq b a) wrong_setting

module _ (network : Text → Option Network) where
  unfoldable pub render_nft : Text → Config → Text → Text → Text → Result ProfileError Text
  render_nft template config internal_cidr ssh_port firewall_mode = do
    mode ← choice firewall_mode (codes "managed" ∷ codes "external" ∷ [])
    same_as (λ a b. a == b) (nonempty config.firewall_mode) mode
    cidr ← canonical_ipv4_cidr network internal_cidr
    same_as (λ a b. a == b) (nonempty config.internal_cidr) cidr
    port ← uint ssh_port 65535 []
    same_as (λ a b. a == b) config.ssh_port port
    text ←
        resolve_conditional config.quic_mode
          (replace_all (replacements config cidr port mode) template)
    guard (not (has_placeholder text)) unresolved
    ok text
