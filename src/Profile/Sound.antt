-- ===== src/Profile/Sound.antt =====
-- The settings that `resolve` of deploy/bot/pdgprofile.py returns.
use proxy_gateway_plus.Prelude.{
  ℕ, ◌≤◌, Bool, true, false, not, ◌&&◌, Option, none, some, List, [], ◌∷◌, ◌++◌, ◌==◌, ==_iff, ℕ_eq,
  List_eq, all, any, contains, ok, ◌≡◌, refl, arith, Ensures, Ensures-bind, Ensures-guard,
  Ensures-step, Ensures-eq, Ensures-weaken,
}
use proxy_gateway_plus.Prelude.Texts.{Text, codes, strip_text}
use proxy_gateway_plus.Profile.{Values, value_of, read_values, choice, platforms}
use proxy_gateway_plus.Profile.Numbers.{
  PortValue, text, numbers, uint, uint_text, mark, mark_text, in_range, ranged, checked_ports,
  has_ports, ports_text, parse_port_list, parse_quic_mode, quic_modes, sorted_set, bits_and,
}
use proxy_gateway_plus.Profile.Sorted.{Ascending, Ascending-sorted_set, all-sorted_set}
use proxy_gateway_plus.Profile.Resolve.{
  Config, Network, local_ports, ssh_ports, clashes, check_platform, chosen_platform, ssh_of,
  cidr_of, firewall_mode_of, routing_of, resolve_values, resolve, nonempty,
}

-- Ports from 1 to 65535, each once and in order.
abbrev pub ArePorts : List ℕ → Type 0
ArePorts ports = Ascending ports × (all (in_range 65535) ports ≡ true)

abbrev pub IsMark : ℕ → Type 0
IsMark n = (1 ≤ n) × (n ≤ 4294967295)

pub record IsSound (occupied : List ℕ) (config : Config) : Type 0 where
  pub platform : contains config.platform platforms ≡ true
  pub quic_mode : contains config.quic_mode quic_modes ≡ true
  pub tls : ArePorts config.tls_ports
  pub http : ArePorts config.http_ports
  pub apart :
      (port : ℕ) → (contains port config.tls_ports && contains port config.http_ports) ≡ false
  pub no_loop :
      any
        (clashes (local_ports config.platform config.quic_mode ++ ssh_ports config.ssh_port))
        (config.tls_ports ++ config.http_ports)
      ≡ false
  pub no_listener : any (clashes occupied) (config.tls_ports ++ config.http_ports) ≡ false
  pub mark : IsMark config.mark
  pub mask : IsMark config.mask
  pub covered : bits_and 32 config.mark config.mask ≡ config.mark
  pub table :
      IsMark config.route_table × (contains config.route_table (253 ∷ 254 ∷ 255 ∷ []) ≡ false)
  pub priority : IsMark config.rule_priority

ranged-Test : (test : ℕ → Bool) (o : Option ℕ) → Ensures (λ n. test n ≡ true) (ranged test o)
ranged-Test test none = tt
ranged-Test test (some n) = Ensures-guard (λ n. test n ≡ true) (test n) _ (ok n) (λ e. e)

mark-IsMark : (value : Text) → Ensures IsMark (mark value)
unfolding mark
mark-IsMark value =
    Ensures-weaken (λ n. in_range 4294967295 n ≡ true) IsMark
      (ranged (in_range 4294967295) (mark_text (strip_text value)))
      (λ n e. (ground arith, ground arith))
      (ranged-Test (in_range 4294967295) (mark_text (strip_text value)))

uint-IsMark :
    (value : Text) (forbidden : List ℕ)
    → Ensures (λ n. IsMark n × (contains n forbidden ≡ false)) (uint value 4294967295 forbidden)
unfolding uint
uint-IsMark value forbidden =
    Ensures-weaken (λ n. (in_range 4294967295 n && not (contains n forbidden)) ≡ true)
      (λ n. IsMark n × (contains n forbidden ≡ false))
      (ranged (λ n. in_range 4294967295 n && not (contains n forbidden))
        (uint_text (strip_text value)))
      (λ n e. ((ground arith, ground arith), ground arith))
      (ranged-Test (λ n. in_range 4294967295 n && not (contains n forbidden))
        (uint_text (strip_text value)))

has_ports-all : (ns : List ℕ) → has_ports ns ≡ true → all (in_range 65535) ns ≡ true
has_ports-all [] h = refl
has_ports-all (n ∷ ns) h = h

checked-ArePorts : (o : Option (List ℕ)) → Ensures ArePorts (checked_ports o)
unfolding checked_ports
checked-ArePorts none = tt
checked-ArePorts (some ns) =
    Ensures-guard ArePorts (has_ports ns) _ (ok (sorted_set ns))
      (λ h. (Ascending-sorted_set ns, all-sorted_set (in_range 65535) ns (has_ports-all ns h)))

parse-ArePorts : (v : PortValue) → Ensures ArePorts (parse_port_list v)
unfolding parse_port_list
parse-ArePorts (text value) = checked-ArePorts (ports_text (strip_text value))
parse-ArePorts (numbers ns) = checked-ArePorts (some ns)

choice-Listed :
    (value : Text) (choices : List Text)
    → Ensures (λ v. contains v choices ≡ true) (choice value choices)
unfolding choice
choice-Listed value choices =
    Ensures-guard (λ v. contains v choices ≡ true) (contains value choices) _ (ok value) (λ e. e)

mode-Listed : (value : Text) → Ensures (λ v. contains v quic_modes ≡ true) (parse_quic_mode value)
unfolding parse_quic_mode
mode-Listed value =
    Ensures-guard (λ v. contains v quic_modes ≡ true) (contains (strip_text value) quic_modes) _
      (ok (strip_text value)) (λ e. e)

abbrev Routes : (ℕ × ℕ) × (ℕ × ℕ) → Type 0
Routes ((m, k), (t, p)) =
    IsMark m
    × IsMark k
    × (bits_and 32 m k ≡ m)
    × (IsMark t × (contains t (253 ∷ 254 ∷ 255 ∷ []) ≡ false))
    × IsMark p

routing-Routes : (values environ : Values) → Ensures Routes (routing_of values environ)
unfolding routing_of
routing-Routes values environ = Ensures-bind IsMark Routes (mark _) _ (mark-IsMark _) (λ m im.
    Ensures-bind IsMark Routes (mark _) _ (mark-IsMark _) (λ k ik.
      Ensures-guard Routes (bits_and 32 m k == m) _ _ (λ c.
        Ensures-bind (λ n. IsMark n × (contains n (253 ∷ 254 ∷ 255 ∷ []) ≡ false)) Routes
          (uint _ 4294967295 (253 ∷ 254 ∷ 255 ∷ [])) _ (uint-IsMark _ _)
          (λ t it.
            Ensures-bind (λ n. IsMark n × (contains n [] ≡ false)) Routes (uint _ 4294967295 []) _
              (uint-IsMark _ []) (λ p ip. (im, ik, (==_iff (bits_and 32 m k) m).0 c, it, ip.0))))))

apart_of :
    (tls http : List ℕ) (port : ℕ)
    → not (any (λ p. contains p http) tls) ≡ true
    → (contains port tls && contains port http) ≡ false
unfolding contains
apart_of [] http port e = refl
apart_of (n ∷ ns) http port e = ground (arith, ==_iff n port, apart_of ns http port)

IsSound-resolve_values :
    (network : Text → Option Network) (values environ : Values) (platform ssh : Option Text)
    (occupied : List ℕ)
    → Ensures (IsSound occupied) (resolve_values network values environ platform ssh occupied)
unfolding resolve_values chosen_platform
IsSound-resolve_values network values environ platform ssh occupied =
    Ensures-step _ (check_platform platform (nonempty (value_of values (codes "PDG_PLATFORM")))) _
      (λ _ _.
        Ensures-bind (λ v. contains v platforms ≡ true) _ (chosen_platform values environ platform)
          _ (choice-Listed _ platforms)
          (λ platform' is_platform.
            Ensures-bind (λ v. contains v quic_modes ≡ true) _ (parse_quic_mode _) _ (mode-Listed _)
              (λ quic_mode is_mode.
                Ensures-bind ArePorts _ (parse_port_list _) _ (parse-ArePorts _) (λ tls is_tls.
                  Ensures-bind ArePorts _ (parse_port_list _) _ (parse-ArePorts _) (λ http is_http.
                    Ensures-guard _ (not (any (λ port. contains port http) tls)) _ _ (λ apart.
                      Ensures-bind Routes _ (routing_of values environ) _
                        (routing-Routes values environ)
                        (λ ((m, k), (t, p)) (im, ik, covered, it, ip).
                          Ensures-step _ (ssh_of values environ ssh) _ (λ ssh_port _.
                            Ensures-guard _ (not (any (clashes _) (tls ++ http))) _ _ (λ no_loop.
                              Ensures-guard _ (not (any (clashes occupied) (tls ++ http))) _ _
                                (λ no_listener. Ensures-step _ (cidr_of network _) _ (λ cidr _.
                                  Ensures-step _ (firewall_mode_of _) _ (λ mode _. record {
                                    platform = is_platform;
                                    quic_mode = is_mode;
                                    tls = is_tls;
                                    http = is_http;
                                    apart = λ port. apart_of tls http port apart;
                                    no_loop = ground (arith, no_loop);
                                    no_listener = ground (arith, no_listener);
                                    mark = im;
                                    mask = ik;
                                    covered = covered;
                                    table = it;
                                    priority = ip;
                                  }))))))))))))

-- The settings that `resolve` returns are sound: the platform and the QUIC mode are known, the ports
-- for TLS and for HTTP are from 1 to 65535, in order and apart from each other, none of them but 80 and
-- 443 is a port of the machine's own services, of SSH or of a live listener, the mark and its mask are
-- from 1 to 2 ^ 32 - 1 and the mask covers the mark, and the routing table is none of the kernel's own.
pub IsSound-resolve :
    (network : Text → Option Network) (profile : Text) (environ : Values)
    (platform ssh : Option Text) (occupied : List ℕ) (config : Config)
    → resolve network profile environ platform ssh occupied ≡ ok config
    → IsSound occupied config
unfolding resolve
IsSound-resolve network profile environ platform ssh occupied config e =
    Ensures-eq (IsSound occupied) (resolve network profile environ platform ssh occupied) config
      (Ensures-step _ (read_values profile) _
        (λ values _. IsSound-resolve_values network values environ platform ssh occupied))
      e
