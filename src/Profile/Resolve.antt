-- ===== src/Profile/Resolve.antt =====
-- `resolve` and `profile_lines`. `platform` and `ssh` are the arguments of
-- the command line, `environ` the environment, `occupied` the ports of live listeners, and `network`
-- stands for `ipaddress.ip_network(…, strict=False)`.
use proxy_gateway_plus.Prelude.{
  ℕ, ◌-◌, Bool, true, false, not, ◌&&◌, Option, none, some, List, [], ◌∷◌, ◌++◌, if◌then◌else◌,
  ◌==◌, ℕ_eq, List_eq, Option_eq, any, contains, Result, ok, err, ◌>>=◌, ◌>>◌, guard,
}
use proxy_gateway_plus.Prelude.Texts.{Text, codes, strip_text}
use proxy_gateway_plus.Profile.{
  ProfileError, wrong_platform, overlapping_ports, uncovered_mark, wrong_ssh_port, local_conflict,
  live_conflict, bad_network, not_canonical_network, Values, value_of, read_values, choice,
  platforms,
}
use proxy_gateway_plus.Profile.Numbers.{
  PortValue, text, numbers, uint, mark, parse_port_list, parse_quic_mode, sorted_set, bits_and,
  decimal_text, hex_text, ports_line,
}

abbrev pub value_or : Option Text → Text → Text
value_or none default = default
value_or (some v) default = v

-- `_env_or_profile`
abbrev pub env_or_profile : Values → Values → Text → Text → Text
env_or_profile values environ name default = elim (value_of environ name) [
  | some v ↦ v
  | none ↦ value_or (value_of values name) default
]

abbrev pub ports_or : Option Text → List ℕ → PortValue
ports_or none default = numbers default
ports_or (some v) default = text v

abbrev pub env_or_ports : Values → Values → Text → List ℕ → PortValue
env_or_ports values environ name default = elim (value_of environ name) [
  | some v ↦ text v
  | none ↦ ports_or (value_of values name) default
]

-- `DEFAULT_TLS_PORTS`
abbrev pub default_tls_ports : Text → List ℕ
default_tls_ports platform =
    if platform == codes "android" then 443 ∷ 5228 ∷ 5229 ∷ 5230 ∷ [] else 443 ∷ []

abbrev pub default_http_ports : List ℕ
default_http_ports = 80 ∷ []

-- The keys of `COMMON_LOCAL_TCP_PORTS`, of `IOS_LOCAL_TCP_PORTS`, and of both with the port of TPROXY
abbrev pub local_ports : Text → Text → List ℕ
local_ports platform quic_mode =
    53 ∷ 853 ∷ 7893 ∷ 8445 ∷ 9090 ∷ (if platform == codes "ios" then 81 ∷ 7894 ∷ 8443 ∷ [] else [])
    ++ (if quic_mode == codes "tproxy" then 7895 ∷ [] else [])

abbrev pub is_nonempty : Text → Bool
is_nonempty [] = false
is_nonempty cs = true

-- `values.get(name)` where an empty text counts as none
abbrev pub nonempty : Option Text → Option Text
nonempty none = none
nonempty (some v) = if is_nonempty v then some v else none

unfoldable pub check_platform : Option Text → Option Text → Result ProfileError (Unit {0})
check_platform (some platform) (some profile_platform) =
    guard (platform == profile_platform) wrong_platform
check_platform _ _ = ok tt

-- `platform or _env_or_profile(…)`
unfoldable pub chosen_platform : Values → Values → Option Text → Result ProfileError Text
chosen_platform values environ platform =
    choice
      (value_or (nonempty platform)
        (env_or_profile values environ (codes "PDG_PLATFORM") (codes "android")))
      platforms

unfoldable pub same_ssh : ℕ → Option Text → Result ProfileError (Unit {0})
same_ssh port none = ok tt
same_ssh port (some v) = do
  profile_ssh ← uint v 65535 []
  guard (port == profile_ssh) wrong_ssh_port

-- The port of SSH, if it is configured.
unfoldable pub ssh_of : Values → Values → Option Text → Result ProfileError (Option ℕ)
ssh_of values environ ssh =
    let configured = value_or ssh (env_or_profile values environ (codes "PDG_SSH_PORT") []) in
    if is_nonempty (strip_text configured)
    then (do
      port ← uint configured 65535 []
      same_ssh port (nonempty (value_of values (codes "PDG_SSH_PORT")))
      ok (some port))
    else ok none

abbrev pub ssh_ports : Option ℕ → List ℕ
ssh_ports none = []
ssh_ports (some port) = port ∷ []

-- A port that is neither 80 nor 443 and is among others.
abbrev pub clashes : List ℕ → ℕ → Bool
clashes others port = not (contains port (80 ∷ 443 ∷ [])) && contains port others

pub record Network : Type 0 where
  pub version : ℕ
  pub prefix_length : ℕ
  pub canonical : Text

module _ (network : Text → Option Network) where
  unfoldable pub canonical_ipv4_cidr : Text → Result ProfileError Text
  canonical_ipv4_cidr value = elim (network (strip_text value)) [
    | none ↦ err bad_network
    | some n ↦ do guard (n.version == 4 && not (n.prefix_length == 0)) bad_network; ok n.canonical
  ]

  unfoldable pub cidr_of : Option Text → Result ProfileError (Option Text)
  cidr_of none = ok none
  cidr_of (some v) = do
    cidr ← canonical_ipv4_cidr v
    guard (strip_text v == cidr) not_canonical_network
    ok (some cidr)

unfoldable pub firewall_mode_of : Option Text → Result ProfileError (Option Text)
firewall_mode_of none = ok none
firewall_mode_of (some v) = do
  mode ← choice v (codes "managed" ∷ codes "external" ∷ [])
  ok (some mode)

-- Without the constants of the result, and the texts that are other fields written out.
pub record Config : Type 0 where
  pub platform : Text
  pub firewall_mode : Option Text
  pub internal_cidr : Option Text
  pub ssh_port : Option ℕ
  pub quic_mode : Text
  pub tls_ports : List ℕ
  pub http_ports : List ℕ
  pub tcp_ports : List ℕ
  pub mark : ℕ
  pub mask : ℕ
  pub mark_clear_mask : ℕ
  pub route_table : ℕ
  pub rule_priority : ℕ

-- The mark, its mask, the table and the priority.
unfoldable pub routing_of : Values → Values → Result ProfileError ((ℕ × ℕ) × (ℕ × ℕ))
routing_of values environ = do
  mark' ← mark (env_or_profile values environ (codes "PDG_QUIC_MARK") (hex_text 5260359))
  mask ← mark (env_or_profile values environ (codes "PDG_QUIC_MARK_MASK") (hex_text 4294967295))
  guard (bits_and 32 mark' mask == mark') uncovered_mark
  table ←
      uint (env_or_profile values environ (codes "PDG_QUIC_ROUTE_TABLE") (decimal_text 7895))
        4294967295 (253 ∷ 254 ∷ 255 ∷ [])
  priority ←
      uint (env_or_profile values environ (codes "PDG_QUIC_RULE_PRIORITY") (decimal_text 17895))
        4294967295 []
  ok ((mark', mask), (table, priority))

module _ (network : Text → Option Network) where
  unfoldable pub resolve_values :
      Values → Values → Option Text → Option Text → List ℕ → Result ProfileError Config
  resolve_values values environ platform ssh occupied = do
    check_platform platform (nonempty (value_of values (codes "PDG_PLATFORM")))
    platform' ← chosen_platform values environ platform
    quic_mode ←
        parse_quic_mode (env_or_profile values environ (codes "PDG_QUIC_MODE") (codes "tproxy"))
    tls ← parse_port_list (
        env_or_ports values environ (codes "PDG_HIJACK_TLS_TCP_PORTS")
          (default_tls_ports platform'))
    http ←
        parse_port_list
          (env_or_ports values environ (codes "PDG_HIJACK_HTTP_TCP_PORTS") default_http_ports)
    guard (not (any (λ port. contains port http) tls)) overlapping_ports
    ((mark', mask), (table, priority)) ← routing_of values environ
    ssh_port ← ssh_of values environ ssh
    guard
        (not (any (clashes (local_ports platform' quic_mode ++ ssh_ports ssh_port)) (tls ++ http)))
        local_conflict
    guard (not (any (clashes occupied) (tls ++ http))) live_conflict
    cidr ← cidr_of network (nonempty (value_of values (codes "PDG_INTERNAL_CIDR")))
    firewall_mode ← firewall_mode_of (nonempty (value_of values (codes "PDG_FIREWALL_MODE")))
    ok (record {
      platform = platform';
      firewall_mode = firewall_mode;
      internal_cidr = cidr;
      ssh_port = ssh_port;
      quic_mode = quic_mode;
      tls_ports = tls;
      http_ports = http;
      tcp_ports = sorted_set (tls ++ http);
      mark = mark';
      mask = mask;
      mark_clear_mask = 4294967295 - mask;
      route_table = table;
      rule_priority = priority;
    })

  -- `resolve` of the text of the profile
  unfoldable pub resolve :
      Text → Values → Option Text → Option Text → List ℕ → Result ProfileError Config
  resolve profile environ platform ssh occupied = do
    values ← read_values profile
    resolve_values values environ platform ssh occupied

abbrev pub setting : Text → Text → Text
setting key value = key ++ 61 ∷ value

unfoldable pub profile_lines : Config → List Text
profile_lines config =
    setting (codes "PDG_QUIC_MODE") config.quic_mode
    ∷ setting (codes "PDG_HIJACK_TLS_TCP_PORTS") (ports_line config.tls_ports)
    ∷ setting (codes "PDG_HIJACK_HTTP_TCP_PORTS") (ports_line config.http_ports)
    ∷ setting (codes "PDG_QUIC_MARK") (hex_text config.mark)
    ∷ setting (codes "PDG_QUIC_MARK_MASK") (hex_text config.mask)
    ∷ setting (codes "PDG_QUIC_ROUTE_TABLE") (decimal_text config.route_table)
    ∷ setting (codes "PDG_QUIC_RULE_PRIORITY") (decimal_text config.rule_priority)
    ∷ []
