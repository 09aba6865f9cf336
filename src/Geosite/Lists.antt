-- ===== src/Geosite/Lists.antt =====
-- `main` of deploy/bot/parse-geosite.py: the categories of geosite.dat and the lists that are written of
-- them. `decode` stands for `bytes.decode("utf-8")` and `upper` for `str.upper`. The directory is made
-- and the counts are printed by calls that are left out.
use proxy_gateway_plus.Prelude.{
  ℕ, Bool, true, false, ◌&&◌, Option, none, some, List, [], ◌∷◌, ◌++◌, if◌then◌else◌, ◌==◌, ℕ_eq,
  List_eq, leb, all, map, contains, Result, ok, err, ◌>>=◌, ◌>>◌, guard,
}
use proxy_gateway_plus.Prelude.Texts.{Text, codes}
use proxy_gateway_plus.Geosite.{WireError, Value, varint, raw, Field, fields}

pub data ListError : Type 0 where
  bad_message : WireError → ListError
  not_utf8 missing_category unknown_type : ListError

-- A domain: its type and its text.
abbrev pub Domain : Type 0
Domain = ℕ × Text

-- `want`: the categories and their files
abbrev pub want : List (Text × Text)
want =
    (codes "CN", codes "geosite_cn.txt")
    ∷ (codes "GEOLOCATION-!CN", codes "geosite_geolocation-!cn.txt")
    ∷ (codes "APPLE", codes "geosite_apple.txt")
    ∷ (codes "GFW", codes "geosite_gfw.txt")
    ∷ []

-- `res` and `seen` in one: none for a category that is not seen.
abbrev pub FoundLists : Type 0
FoundLists = Text → Option (List Domain)

abbrev pub put_category : Text → List Domain → FoundLists → FoundLists
put_category cc domains found key = if cc == key then some domains else found key

unfoldable pub read_fields : List ℕ → Result ListError (List Field)
read_fields source = elim (fields source) [ err e ↦ err (bad_message e) | ok fs ↦ ok fs ]

abbrev pub has_type : Field → ℕ → ℕ → Bool
has_type f number wire = f.number == number && f.wire == wire

-- The fields of wire type 0 have numbers for values, the others bytes.
abbrev pub number_of : Value → ℕ
number_of (varint n) = n
number_of (raw bytes) = 0

abbrev pub bytes_of : Value → List ℕ
bytes_of (varint n) = []
bytes_of (raw bytes) = bytes

abbrev pub has_domains : Option (List Domain) → Bool
has_domains (some (d ∷ domains)) = true
has_domains found = false

abbrev pub domains_of : Option (List Domain) → List Domain
domains_of none = []
domains_of (some domains) = domains

-- `pref`
abbrev pub type_prefix : ℕ → Text
type_prefix dt =
    if dt == 0
    then codes "keyword:"
    else if dt == 1
    then codes "regexp:"
    else if dt == 2
    then codes "domain:"
    else codes "full:"

abbrev pub lines_of : List Domain → Text
lines_of [] = []
lines_of ((dt, dv) ∷ domains) = type_prefix dt ++ dv ++ (10 ∷ []) ++ lines_of domains

abbrev pub are_typed : List Domain → Bool
are_typed = all (λ d. leb d.0 3)

-- The files and their contents, after the checks.
unfoldable pub write_lists : FoundLists → Result ListError (List (Text × Text))
write_lists found = do
  guard (all (λ w. has_domains (found w.0)) want) missing_category
  guard (all (λ w. are_typed (domains_of (found w.0))) want) unknown_type
  ok (map (λ w. (w.1, lines_of (domains_of (found w.0)))) want)

unfoldable pub keep_category : FoundLists → Option Text × List Domain → FoundLists
keep_category found (none, domains) = found
keep_category found (some cc, domains) =
    if contains cc (map (λ w. w.0) want) then put_category cc domains found else found

module _ (decode : List ℕ → Option Text) (upper : Text → Text) where
  unfoldable pub decode_text : List ℕ → Result ListError Text
  decode_text bytes = elim (decode bytes) [ none ↦ err not_utf8 | some t ↦ ok t ]

  unfoldable pub domain_field : ℕ × Option Text → Field → Result ListError (ℕ × Option Text)
  domain_field (dt, dv) f =
      if has_type f 1 0
      then ok (number_of f.value, dv)
      else if has_type f 2 2
      then (do text ← decode_text (bytes_of f.value); ok (dt, some text))
      else ok (dt, dv)

  unfoldable pub domain_from : ℕ × Option Text → List Field → Result ListError (ℕ × Option Text)
  domain_from state [] = ok state
  domain_from state (f ∷ fs) = do state' ← domain_field state f; domain_from state' fs

  abbrev pub with_domain : List Domain → ℕ × Option Text → List Domain
  with_domain domains (dt, none) = domains
  with_domain domains (dt, some dv) = domains ++ (dt, dv) ∷ []

  unfoldable pub category_field :
      Option Text × List Domain → Field → Result ListError (Option Text × List Domain)
  category_field (cc, domains) f =
      if has_type f 1 2
      then (do text ← decode_text (bytes_of f.value); ok (some (upper text), domains))
      else if has_type f 2 2
      then (do
        fs ← read_fields (bytes_of f.value)
        domain ← domain_from (0, none) fs
        ok (cc, with_domain domains domain))
      else ok (cc, domains)

  unfoldable pub category_from :
      Option Text × List Domain → List Field → Result ListError (Option Text × List Domain)
  category_from state [] = ok state
  category_from state (f ∷ fs) = do state' ← category_field state f; category_from state' fs

  unfoldable pub list_field : FoundLists → Field → Result ListError FoundLists
  list_field found f =
      if has_type f 1 2
      then (do
        fs ← read_fields (bytes_of f.value)
        category ← category_from (none, []) fs
        ok (keep_category found category))
      else ok found

  unfoldable pub lists_from : FoundLists → List Field → Result ListError FoundLists
  lists_from found [] = ok found
  lists_from found (f ∷ fs) = do found' ← list_field found f; lists_from found' fs

  -- `main` of the bytes of geosite.dat
  unfoldable pub lists : List ℕ → Result ListError (List (Text × Text))
  lists source = do fs ← read_fields source; found ← lists_from (λ cc. none) fs; write_lists found
