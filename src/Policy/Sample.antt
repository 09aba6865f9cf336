-- ===== src/Policy/Sample.antt =====
-- A small model for tests.
use proxy_gateway_plus.Prelude.{◌-◌, String, ◌&&◌, none, some, if◌then◌else◌, leb, String_eq}
use proxy_gateway_plus.Prelude.Json.{
  Json, int, str, arr, obj, Items, nil, cons, Fields, end, field, pos,
}
use proxy_gateway_plus.Policy.Names.{Unicode, other}

-- Tables for texts of ASCII characters.
abbrev pub ascii : Unicode
ascii = record {
  nfc = λ s. s;
  category = λ n. other;
  casefold = λ s. s;
  decimal = λ n. if leb 48 n && leb n 57 then some (n - 48) else none;
}

abbrev pub outbound : String → String → Json
outbound kind name = obj (field "type" (str kind) (field "tag" (str name) end))

abbrev pub group : String → Items → Json
group name members = obj (
    field "name" (str name)
      (field "type" (str "select") (field "proxies" (arr members) (field "use" (arr nil) end))))

abbrev pub no_mihomo : Json
no_mihomo = obj (
    field "proxy-providers" (obj end) (
      field "rule-providers" (obj end)
        (field "advanced" (obj end) (field "managed-files" (obj end) end))))

-- A model with a direct outbound and two groups: the tag of the outbound, and the name by which a group
-- and a rule refer to it.
abbrev pub model_with : String → String → Fields
model_with tagged direct =
    field "outbounds" (arr (cons (outbound "direct" tagged) (cons (outbound "vless" "hk") nil))) (
      field "_pdg"
        (obj (
          field "schema" (int (pos 3)) (
            field "policy-groups"
              (arr (
                cons (group "auto" (cons (str "hk") (cons (str "pick") nil)))
                  (cons (group "pick" (cons (str direct) nil)) nil)))
              (field "mihomo" no_mihomo end))))
        (field "route"
          (obj (
            field "final" (str "auto")
              (field "rules" (arr (cons (obj (field "outbound" (str direct) end)) nil)) end)))
          end))

abbrev pub sample : String → Fields
sample direct = model_with direct direct
