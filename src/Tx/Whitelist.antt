-- ===== src/Tx/Whitelist.antt =====
-- `resolve_target` of deploy/bot/pdgtx.py: from the name of a target to its path. Texts are lists of
-- code points. `root` is FSROOT and `cert_dir` what `_trusted_cert_dir` answers; the validators of a
-- target are left out.
use Prim.Native.Char.{code}
use proxy_gateway_plus.Prelude.{
  ℕ, zero, suc, String, Bool, true, false, not, ◌&&◌, ◌||◌, Option, none, some, List, [], ◌∷◌, ◌++◌,
  if◌then◌else◌, ◌==◌, ℕ_eq, List_eq, leb, nat_eq, any, contains, Result, ok, err,
}

abbrev pub Text : Type 0
Text = List ℕ

abbrev pub codes : String → Text
codes String.[] = []
codes (String.◌∷◌ c s) = code c ∷ codes s

pub record Place : Type 0 where
  pub path : Text
  pub mode : ℕ
  pub secret : Bool

-- 0o600 and 0o644
abbrev pub private_mode : ℕ
private_mode = 384

abbrev pub shared_mode : ℕ
shared_mode = 420

-- `_STATIC`
abbrev pub static_targets : List (Text × Place)
static_targets =
    (
      codes "model",
      record { path = codes "/etc/sing-box/config.json"; mode = private_mode; secret = true },
    )
    ∷ (
      codes "mihomo_cfg",
      record { path = codes "/etc/mihomo/config.yaml"; mode = private_mode; secret = true },
    )
    ∷ (
      codes "mosdns_conf",
      record { path = codes "/etc/mosdns/config.yaml"; mode = shared_mode; secret = false },
    )
    ∷ (
      codes "ruleset_direct",
      record {
        path = codes "/etc/mosdns/rules/ruleset_direct.txt";
        mode = shared_mode;
        secret = false;
      },
    )
    ∷ (
      codes "ruleset_hijack",
      record {
        path = codes "/etc/mosdns/rules/ruleset_hijack.txt";
        mode = shared_mode;
        secret = false;
      },
    )
    ∷ (
      codes "rs_meta",
      record { path = codes "/opt/pdg-bot/rulesets.json"; mode = shared_mode; secret = false },
    )
    ∷ (
      codes "profile_env",
      record {
        path = codes "/etc/privdns-gateway/profile.env";
        mode = private_mode;
        secret = false;
      },
    )
    ∷ (
      codes "nftables_conf",
      record { path = codes "/etc/nftables.conf"; mode = shared_mode; secret = false },
    )
    ∷ (
      codes "mitm_json",
      record { path = codes "/etc/privdns-gateway/mitm.json"; mode = private_mode; secret = false },
    )
    ∷ (
      codes "mitm_hijack",
      record {
        path = codes "/etc/mosdns/rules/mitm_hijack.txt";
        mode = shared_mode;
        secret = false;
      },
    )
    ∷ (
      codes "sysctl_tfo",
      record { path = codes "/etc/sysctl.d/99-pdg-tfo.conf"; mode = shared_mode; secret = false },
    )
    ∷ (
      codes "dot_marker",
      record { path = codes "/opt/pdg-bot/dot-domain"; mode = shared_mode; secret = false },
    )
    ∷ (
      codes "cert_fullchain",
      record { path = codes "/etc/mosdns/certs/fullchain.pem"; mode = shared_mode; secret = false },
    )
    ∷ (
      codes "cert_privkey",
      record { path = codes "/etc/mosdns/certs/privkey.pem"; mode = private_mode; secret = true },
    )
    ∷ []

abbrev pub find_text {ℓ} : {A : Type ℓ} → Text → List (Text × A) → Option A
find_text k [] = none
find_text k ((j, a) ∷ rest) = if j == k then some a else find_text k rest

-- `name[len(prefix):]` where `name.startswith(prefix)`
unfoldable pub after_prefix : Text → Text → Option Text
after_prefix [] name = some name
after_prefix (p ∷ prefix) [] = none
after_prefix (p ∷ prefix) (c ∷ name) = if p == c then after_prefix prefix name else none

abbrev is_between : ℕ → ℕ → ℕ → Bool
is_between a b c = leb a c && leb c b

unfoldable pub is_word : ℕ → Bool
is_word c =
    is_between b'A' b'Z' c || is_between b'a' b'z' c || is_between b'0' b'9' c || nat_eq c b'_'

-- One or more characters of a class and then the ending.
unfoldable pub has_form : (ℕ → Bool) → Text → Text → Bool
has_form class ending [] = false
has_form class ending (c ∷ text) =
    let more = has_form class ending text in class c && (text == ending || more)

-- `re.match` with a pattern that ends in `$`, which also stands before a last newline.
unfoldable pub matches : (ℕ → Bool) → List Text → Text → Bool
matches class endings text =
    any (λ ending. has_form class ending text || has_form class (ending ++ 10 ∷ []) text) endings

unfoldable pub is_hex : ℕ → Bool
is_hex c = is_between b'a' b'f' c || is_between b'0' b'9' c

-- `re.fullmatch`: so many hexadecimal digits and then the ending.
unfoldable pub hex_form : ℕ → Text → Text → Bool
hex_form zero ending text = text == ending
hex_form (suc n) ending [] = false
hex_form (suc n) ending (c ∷ text) = let more = hex_form n ending text in is_hex c && more

-- `"/" in leaf or leaf.startswith(".")`
unfoldable pub is_unsafe : Text → Bool
is_unsafe [] = false
is_unsafe (c ∷ leaf) = contains b'/' (c ∷ leaf) || nat_eq c b'.'

unfoldable pub is_rule : Text → Bool
is_rule =
    matches (λ c. is_word c || nat_eq c b'!' || nat_eq c b'.' || nat_eq c b'-') (codes ".txt" ∷ [])

unfoldable pub is_ruleset : Text → Bool
is_ruleset =
    matches (λ c. is_word c || nat_eq c b'.' || nat_eq c b'-') (codes ".json" ∷ codes ".mrs" ∷ [])

unfoldable pub is_unit : Text → Bool
is_unit =
    matches (λ c. is_word c || nat_eq c b'.' || nat_eq c b'@' || nat_eq c b'-')
      (codes ".service" ∷ codes ".timer" ∷ [])

unfoldable pub is_provider : Text → Bool
is_provider leaf =
    any (λ ending. hex_form 64 ending leaf)
      (codes ".yaml" ∷ codes ".yml" ∷ codes ".json" ∷ codes ".txt" ∷ codes ".mrs" ∷ [])

pub data TargetError : Type 0 where
  bad_name not_listed : TargetError

module _ (root cert_dir : Text) where
  -- A name that its pattern allows becomes a file in the directory.
  unfoldable pub in_directory : (Text → Bool) → Text → ℕ → Bool → Text → Result TargetError Place
  in_directory allows base mode secret leaf =
      if not (allows leaf) || is_unsafe leaf
      then err bad_name
      else ok (record { path = root ++ (base ++ leaf); mode = mode; secret = secret })

  unfoldable pub resolve_unit : Text → Option Text → Result TargetError Place
  resolve_unit name none = err not_listed
  resolve_unit name (some leaf) =
      in_directory is_unit (codes "/etc/systemd/system/") shared_mode false leaf

  unfoldable pub resolve_ruleset : Text → Option Text → Result TargetError Place
  resolve_ruleset name none = resolve_unit name (after_prefix (codes "unit:") name)
  resolve_ruleset name (some leaf) =
      in_directory is_ruleset (codes "/etc/sing-box/rs/") shared_mode false leaf

  unfoldable pub resolve_rule : Text → Option Text → Result TargetError Place
  resolve_rule name none = resolve_ruleset name (after_prefix (codes "ruleset:") name)
  resolve_rule name (some leaf) =
      in_directory is_rule (codes "/etc/mosdns/rules/") shared_mode false leaf

  unfoldable pub resolve_provider : Text → Option Text → Result TargetError Place
  resolve_provider name none = resolve_rule name (after_prefix (codes "mosdns_rule:") name)
  resolve_provider name (some leaf) =
      in_directory is_provider (codes "/etc/mihomo/providers/") private_mode true leaf

  unfoldable pub resolve_static : Text → Option Place → Result TargetError Place
  resolve_static name none = resolve_provider name (after_prefix (codes "mihomo_provider:") name)
  resolve_static name (some place) = ok (record place { path = root ++ place.path })

  -- `resolve_target`
  unfoldable pub resolve_target : Text → Result TargetError Place
  resolve_target name =
      if name == codes "cert_fullchain"
      then ok (record {
        path = root ++ (cert_dir ++ codes "/fullchain.pem");
        mode = shared_mode;
        secret = false;
      })
      else if name == codes "cert_privkey"
      then ok (record {
        path = root ++ (cert_dir ++ codes "/privkey.pem");
        mode = private_mode;
        secret = true;
      })
      else resolve_static name (find_text name static_targets)
