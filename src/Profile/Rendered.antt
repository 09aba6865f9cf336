-- ===== src/Profile/Rendered.antt =====
-- What `render_nft` of deploy/bot/pdgprofile.py makes of a template.
use proxy_gateway_plus.Prelude.{
  ℕ, true, Option, none, some, [], ◌∷◌, ◌++◌, if◌then◌else◌, ◌==◌, ℕ_eq, List_eq, all, ok, ◌≡◌,
}
use proxy_gateway_plus.Prelude.Texts.{Text, codes}
use proxy_gateway_plus.Profile.Numbers.{uint}
use proxy_gateway_plus.Profile.Resolve.{Config, Network, canonical_ipv4_cidr}
use proxy_gateway_plus.Profile.Render.{
  is_name_code, replacements, replace_all, quic_begin, quic_end,
}

abbrev Splits : Text → Text → Option (Text × Text) → Type 0
Splits token text none = Unit
Splits token text (some (head, tail)) = text ≡ head ++ token ++ tail

-- A placeholder somewhere in a text.
pub record HasName (text : Text) : Type 0 where
  pub before : Text
  pub first : ℕ
  pub rest : Text
  pub after : Text
  pub named : all is_name_code (first ∷ rest) ≡ true
  pub is : text ≡ before ++ (codes "__" ++ (first ∷ rest) ++ (codes "__" ++ after))

-- The text without the markers, and without what is between them where QUIC is rejected.
pub record IsCut (quic_mode replaced text : Text) : Type 0 where
  pub before : Text
  pub conditional : Text
  pub after : Text
  pub template : replaced ≡ before ++ quic_begin ++ (conditional ++ quic_end ++ after)
  pub is : text ≡ before ++ (if quic_mode == codes "tproxy" then conditional else []) ++ after

-- What a rendered text is: `cidr` and `port` are the arguments in their canonical form.
pub record IsRendered (network : Text → Option Network) (template : Text) (config : Config)
    (internal_cidr ssh_port firewall_mode text : Text) : Type 0 where
  pub cidr : Text
  pub port : ℕ
  pub cidr_is : canonical_ipv4_cidr network internal_cidr ≡ ok cidr
  pub port_is : uint ssh_port 65535 [] ≡ ok port
  pub cut :
      IsCut config.quic_mode
        (replace_all (replacements config cidr port firewall_mode) template)
        text
  pub complete : ¬ HasName text
