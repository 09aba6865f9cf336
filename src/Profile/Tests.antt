-- ===== src/Profile/Tests.antt =====
-- A profile, runs on it, and the theorems at concrete inputs.
use proxy_gateway_plus.Prelude.{
  Option, none, some, List, [], ◌∷◌, ◌≡◌, refl, ok, contains, list_beq, arith,
}
use proxy_gateway_plus.Prelude.Texts.{Text, codes, splitlines, join_with}
use proxy_gateway_plus.Profile.{add_value, read_pair, read_line, read_lines, read_values, choice}
use proxy_gateway_plus.Profile.Numbers.{
  text, ports_line, decimal_text, hex_text, uint, mark, ports_after, checked_ports, parse_port_list,
  parse_quic_mode, bits_and, digits, hex_digits,
}
use proxy_gateway_plus.Profile.Resolve.{
  Config, Network, check_platform, chosen_platform, same_ssh, ssh_of, cidr_of, firewall_mode_of,
  routing_of, resolve_values, resolve, profile_lines,
}
use proxy_gateway_plus.Profile.Retarget.{
  stored_ports, update_line, missing_lines, update_lines, retarget_ports, retarget_lines,
}
use proxy_gateway_plus.Profile.ReadBack.{parse_port_list-ports_line}
use proxy_gateway_plus.Profile.ReadOnce.{all_values, read_values-all_values}
use proxy_gateway_plus.Profile.NumbersBack.{uint-decimal_text, mark-hex_text}
use proxy_gateway_plus.Profile.Hosts.{
  canonical_hostname, is_label, split_dots, words, port_of, endpoint_port, checked_port,
  listener_ports, live_tcp_listener_ports,
}
use proxy_gateway_plus.Profile.Kept.{IsRetargeted, retarget-Kept}
use proxy_gateway_plus.Profile.Sound.{IsSound, IsSound-resolve}

abbrev no_network : Text → Option Network
no_network value = none

-- A comment, a platform, ports for TLS and the port of SSH
abbrev profile : Text
profile = join_with (10 ∷ []) (
    codes "# profile"
    ∷ codes "PDG_PLATFORM=ios"
    ∷ codes "PDG_HIJACK_TLS_TCP_PORTS=5228, 443"
    ∷ codes "PDG_SSH_PORT=22"
    ∷ [])

abbrev resolved : Config
resolved = record {
  platform = codes "ios";
  firewall_mode = none;
  internal_cidr = none;
  ssh_port = some 22;
  quic_mode = codes "tproxy";
  tls_ports = 443 ∷ 5228 ∷ [];
  http_ports = 80 ∷ [];
  tcp_ports = 80 ∷ 443 ∷ 5228 ∷ [];
  mark = 5260359;
  mask = 4294967295;
  mark_clear_mask = 0;
  route_table = 7895;
  rule_priority = 17895;
}

resolve-profile : resolve no_network profile [] none none (5353 ∷ []) ≡ ok resolved
unfolding resolve resolve_values read_values read_lines read_line read_pair add_value splitlines
    choice check_platform chosen_platform same_ssh ssh_of cidr_of firewall_mode_of routing_of uint
    mark ports_after checked_ports parse_port_list parse_quic_mode bits_and digits hex_digits
    contains list_beq
resolve-profile = refl

IsSound-resolve_example : IsSound (5353 ∷ []) resolved
IsSound-resolve_example =
    IsSound-resolve no_network profile [] none none (5353 ∷ []) resolved resolve-profile

lines-resolved :
    profile_lines resolved
    ≡ codes "PDG_QUIC_MODE=tproxy"
      ∷ codes "PDG_HIJACK_TLS_TCP_PORTS=443,5228"
      ∷ codes "PDG_HIJACK_HTTP_TCP_PORTS=80"
      ∷ codes "PDG_QUIC_MARK=0x504447"
      ∷ codes "PDG_QUIC_MARK_MASK=0xffffffff"
      ∷ codes "PDG_QUIC_ROUTE_TABLE=7895"
      ∷ codes "PDG_QUIC_RULE_PRIORITY=17895"
      ∷ []
unfolding profile_lines digits hex_digits
lines-resolved = refl

abbrev retargeted : List Text
retargeted =
    codes "# profile"
    ∷ codes "PDG_PLATFORM=android"
    ∷ codes "PDG_HIJACK_TLS_TCP_PORTS=443,5228,5229,5230"
    ∷ codes "PDG_SSH_PORT=22"
    ∷ []

retarget-profile : retarget_lines profile (codes "android") ≡ ok retargeted
unfolding retarget_lines retarget_ports stored_ports update_lines update_line missing_lines
    read_values read_lines read_line read_pair add_value splitlines choice ports_after checked_ports
    parse_port_list digits contains list_beq
retarget-profile = refl

retarget-Kept_example : IsRetargeted profile (codes "android") retargeted
retarget-Kept_example = retarget-Kept profile (codes "android") retargeted retarget-profile

parse_port_list-ports_line_example :
    parse_port_list (text (ports_line (80 ∷ 443 ∷ 5228 ∷ []))) ≡ ok (80 ∷ 443 ∷ 5228 ∷ [])
parse_port_list-ports_line_example =
    parse_port_list-ports_line (80 ∷ 443 ∷ 5228 ∷ []) refl
      ((omega arith, (omega arith, tt)), ((omega arith, tt), (tt, tt)))

read-profile :
    read_values profile
    ≡ ok (
        (codes "PDG_PLATFORM", codes "ios")
        ∷ (codes "PDG_HIJACK_TLS_TCP_PORTS", codes "5228, 443")
        ∷ (codes "PDG_SSH_PORT", codes "22")
        ∷ [])
unfolding read_values read_lines read_line read_pair add_value splitlines contains list_beq
read-profile = refl

read_values-all_values_example :
    all_values (codes "PDG_SSH_PORT") (splitlines profile) ≡ codes "22" ∷ []
unfolding contains list_beq
read_values-all_values_example =
    read_values-all_values profile _ (codes "PDG_SSH_PORT") refl read-profile

uint-decimal_text_example : uint (decimal_text 7895) 4294967295 (253 ∷ 254 ∷ 255 ∷ []) ≡ ok 7895
unfolding contains
uint-decimal_text_example =
    uint-decimal_text 7895 4294967295 (253 ∷ 254 ∷ 255 ∷ []) refl (omega arith) refl

mark-hex_text_example : mark (hex_text 5260359) ≡ ok 5260359
mark-hex_text_example = mark-hex_text 5260359 refl

-- Networks that are written canonically
abbrev as_written : Text → Option Network
as_written value = some (record { version = 4; prefix_length = 24; canonical = value })

abbrev template : Text
template =
    codes "port __SSH_PORT__\n# PDG_QUIC_TPROXY_BEGIN\nmark __QUIC_MARK__\n# PDG_QUIC_TPROXY_END\n"

abbrev rendered : Text
rendered = codes "port 22\n\nmark 0x504447\n\n"

hostname-dot :
    canonical_hostname (λ text. none) (λ text. text) (codes "dot.example.org")
    ≡ ok (codes "dot.example.org")
unfolding canonical_hostname list_beq contains split_dots is_label
hostname-dot = refl

listing-ports :
    live_tcp_listener_ports
      (some (codes "LISTEN 0 511 0.0.0.0:443 0.0.0.0:*\nLISTEN 0 128 [::]:22 [::]:*\n"))
    ≡ ok (443 ∷ 22 ∷ [])
unfolding live_tcp_listener_ports listener_ports splitlines checked_port endpoint_port words port_of
listing-ports = refl
