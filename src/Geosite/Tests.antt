-- ===== src/Geosite/Tests.antt =====
-- Runs of the protobuf reader on small inputs, and the theorems at concrete inputs.
use proxy_gateway_plus.Prelude.{
  ◌&&◌, ◌-◌, leb, if◌then◌else◌, map, list_beq, ◌≡◌, ◌≢◌, refl, arith, List, [], ◌∷◌, ◌++◌, ok, err,
  inl, inr,
}
use proxy_gateway_plus.Geosite.{
  Field, varint, raw, read_from, read_varint, fields, fields_from, read_field, read_value,
  length_of, out_of_fuel, truncated_field, after_key, is_number, cut_bytes,
}
use proxy_gateway_plus.Geosite.Varint.{put_varint, read_varint-put_varint}
use proxy_gateway_plus.Geosite.Fields.{put_fields, fields-put_fields}
use proxy_gateway_plus.Prelude.Texts.{Text, codes}
use proxy_gateway_plus.Geosite.Lists.{write_lists}
use proxy_gateway_plus.Geosite.Picked.{Category, last}
use proxy_gateway_plus.Geosite.Consumed.{fields_ends}

three_hundred : read_varint (172 ∷ 2 ∷ 7 ∷ []) ≡ ok (300, 7 ∷ [])
unfolding read_varint read_from
three_hundred = refl

-- Field 1 of wire type 2 that promises three bytes and has two.
cut_short : fields (10 ∷ 3 ∷ 65 ∷ 66 ∷ []) ≡ err truncated_field
unfolding fields fields_from read_field read_varint read_from after_key is_number read_value
    length_of cut_bytes
cut_short = refl

read_varint-put_varint_example : read_varint (put_varint 300 ++ 7 ∷ []) ≡ ok (300, 7 ∷ [])
read_varint-put_varint_example = read_varint-put_varint 300 (7 ∷ []) (omega arith)

-- A domain of geosite.dat: its type and its text.
abbrev a_domain : List Field
a_domain =
    record { number = 1; wire = 0; value = varint 2 }
    ∷ record { number = 2; wire = 2; value = raw (99 ∷ 110 ∷ []) }
    ∷ []

fields-put_fields_example : fields (put_fields a_domain) ≡ ok a_domain
fields-put_fields_example = fields-put_fields a_domain (
  record { numbered = unfold is_number in refl; fits = (refl, omega arith) },
  (record { numbered = unfold is_number in refl; fits = inr (inl (refl, omega arith)) }, tt),
)

fields_ends_example : fields (255 ∷ 255 ∷ 1 ∷ []) ≢ err out_of_fuel
fields_ends_example = fields_ends (255 ∷ 255 ∷ 1 ∷ [])

abbrev upper : Text → Text
upper = map (λ c. if leb 97 c && leb c 122 then c - 32 else c)

-- The category CN is there twice.
abbrev categories : List Category
categories =
    record { code = codes "CN"; domains = (2, codes "a.cn") ∷ [] }
    ∷ record { code = codes "geolocation-!cn"; domains = (3, codes "b.com") ∷ [] }
    ∷ record { code = codes "gfw"; domains = (0, codes "c") ∷ (1, codes "d+") ∷ [] }
    ∷ record { code = codes "apple"; domains = (2, codes "e") ∷ [] }
    ∷ record { code = codes "cn"; domains = (2, codes "f.cn") ∷ [] }
    ∷ []

written :
    write_lists (λ key. last upper key categories)
    ≡ ok (
        (codes "geosite_cn.txt", codes "domain:f.cn\n")
        ∷ (codes "geosite_geolocation-!cn.txt", codes "full:b.com\n")
        ∷ (codes "geosite_apple.txt", codes "domain:e\n")
        ∷ (codes "geosite_gfw.txt", codes "keyword:c\nregexp:d+\n")
        ∷ [])
unfolding write_lists list_beq
written = refl
