-- ===== src/Geosite/Picked.antt =====
-- `main` of deploy/bot/parse-geosite.py on the categories that protobuf writes.
use proxy_gateway_plus.Prelude.{
  ℕ, ◌^◌, ◌<◌, Option, none, some, List, [], ◌∷◌, if◌then◌else◌, ◌==◌, ℕ_eq, List_eq, length, All,
  map,
}
use proxy_gateway_plus.Prelude.Texts.{Text}
use proxy_gateway_plus.Geosite.{varint, raw, Field}
use proxy_gateway_plus.Geosite.Fields.{put_fields, WellFormed}
use proxy_gateway_plus.Geosite.Lists.{Domain}

-- A category: its code and its domains.
pub record Category : Type 0 where
  pub code : Text
  pub domains : List Domain

abbrev number_field : ℕ → ℕ → Field
number_field number n = record { number = number; wire = 0; value = varint n }

abbrev bytes_field : ℕ → List ℕ → Field
bytes_field number bytes = record { number = number; wire = 2; value = raw bytes }

abbrev pub or_else : Option (List Domain) → Option (List Domain) → Option (List Domain)
or_else none other = other
or_else (some ds) other = some ds

-- The domains of the last category with a code, where `upper` makes it upper-case.
abbrev pub last : (Text → Text) → Text → List Category → Option (List Domain)
last upper key [] = none
last upper key (c ∷ cs) =
    or_else (last upper key cs) (if upper c.code == key then some c.domains else none)

module _ (encode : Text → List ℕ) where
  abbrev pub domain_fields : Domain → List Field
  domain_fields (dt, dv) = number_field 1 dt ∷ bytes_field 2 (encode dv) ∷ []

  abbrev pub put_domain : Domain → Field
  put_domain d = bytes_field 2 (put_fields (domain_fields d))

  abbrev pub category_fields : Category → List Field
  category_fields c = bytes_field 1 (encode c.code) ∷ map put_domain c.domains

  -- geosite.dat of categories
  abbrev pub list_fields : List Category → List Field
  list_fields = map (λ c. bytes_field 1 (put_fields (category_fields c)))

  -- All lengths and types are below 2 ^ 64.
  pub record IsShort (c : Category) : Type 0 where
    pub domains : All (λ d. (d.0 < 2 ^ 64) × (length (encode d.1) < 2 ^ 64)) c.domains
    pub fields : All WellFormed (category_fields c)
    pub message : length (put_fields (category_fields c)) < 2 ^ 64
