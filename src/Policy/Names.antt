-- ===== src/Policy/Names.antt =====
-- `normalize_name`, `validate_name`, `is_valid_name` and `_tag`.
pub mod Stripped
use Prim.Native.Char.{Char, code}
use Prim.Native.String.{len, count}
use proxy_gateway_plus.Prelude.{
  ℕ, String, Bool, true, false, not, ◌&&◌, ◌||◌, Option, List, [], ◌∷◌, if◌then◌else◌, ◌==◌, ℕ_eq,
  String_eq, leb, ltb, contains, Result, ok, err, ◌>>=◌, ◌>>◌, guard,
}
use proxy_gateway_plus.Prelude.Texts.{is_space}
use proxy_gateway_plus.Prelude.Json.{Json, str}
use proxy_gateway_plus.Policy.{
  ModelError, bad_name, invalid, invalid_at, not_text, bad_length, unsafe, not_canonical,
  reserved_targets, direct_setting_reserved,
}

pub data Category : Type 0 where
  surrogate line_separator paragraph_separator format other : Category

-- The tables of the module unicodedata: NFC, the categories that matter here, case folding and the
-- values of decimal digits.
pub record Unicode : Type 0 where
  pub nfc : String → String
  pub category : ℕ → Category
  pub casefold : String → String
  pub decimal : ℕ → Option ℕ

abbrev pub strip_left : String → String
strip_left String.[] = String.[]
strip_left (String.◌∷◌ c s) = if is_space (code c) then strip_left s else String.◌∷◌ c s

-- A character in front of a text whose end is stripped.
abbrev pub before_stripped : Char → String → String
before_stripped c String.[] = if is_space (code c) then String.[] else String.◌∷◌ c String.[]
before_stripped c s = String.◌∷◌ c s

abbrev pub strip_right : String → String
strip_right String.[] = String.[]
strip_right (String.◌∷◌ c s) = before_stripped c (strip_right s)

abbrev pub strip : String → String
strip s = strip_right (strip_left s)

-- `_DANGEROUS_NAME_CODEPOINTS`
abbrev pub dangerous_codepoints : List ℕ
dangerous_codepoints =
    173 ∷ 847 ∷ 1564 ∷ 4447 ∷ 4448 ∷ 6068 ∷ 6069 ∷ 6158 ∷ 8203 ∷ 8206 ∷ 8207 ∷ 8234 ∷ 8235 ∷ 8236
    ∷ 8237 ∷ 8238 ∷ 8288 ∷ 8289 ∷ 8290 ∷ 8291 ∷ 8292 ∷ 8294 ∷ 8295 ∷ 8296 ∷ 8297 ∷ 8298 ∷ 8299
    ∷ 8300 ∷ 8301 ∷ 8302 ∷ 8303 ∷ 12644 ∷ 65279 ∷ 65440 ∷ []

abbrev pub is_separator : Category → Bool
is_separator surrogate = true
is_separator line_separator = true
is_separator paragraph_separator = true
is_separator _ = false

abbrev pub is_format : Category → Bool
is_format format = true
is_format _ = false

module _ (u : Unicode) where
  unfoldable pub is_unsafe : ℕ → Bool
  is_unsafe n =
      ltb n 32
      || (leb 127 n && leb n 159)
      || is_separator (u.category n)
      || (is_format (u.category n) && not (n == 8205))
      || contains n dangerous_codepoints

  unfoldable pub any_unsafe : String → Bool
  any_unsafe String.[] = false
  any_unsafe (String.◌∷◌ c s) = is_unsafe (code c) || any_unsafe s

  unfoldable pub has_length : String → Bool
  has_length name = not (name == "") && leb (count name) 64 && leb (len name) 256

  unfoldable pub normalize_text : String → String → Result ModelError String
  normalize_text value label = do
    let canonical = u.nfc value
    guard (not (any_unsafe canonical)) (bad_name unsafe label)
    let name = strip canonical
    guard (has_length name) (bad_name bad_length label)
    ok name

  unfoldable pub normalize_name : Json → String → Result ModelError String
  normalize_name (str value) label = normalize_text value label
  normalize_name _ label = err (bad_name not_text label)

  unfoldable pub validate_name : Json → String → Result ModelError String
  validate_name (str value) label = do
    name ← normalize_text value label
    guard (name == value) (bad_name not_canonical label)
    ok name
  validate_name _ label = err (bad_name not_text label)

  unfoldable pub is_valid_name : Json → Bool → Bool
  is_valid_name value canonical =
      elim (if canonical then validate_name value "name" else normalize_name value "name") [
        | ok _ ↦ true
        | err _ ↦ false
      ]

-- `[A-Za-z0-9_.-]`
abbrev pub is_tag_code : ℕ → Bool
is_tag_code n =
    (leb 65 n && leb n 90)
    || (leb 97 n && leb n 122)
    || (leb 48 n && leb n 57)
    || n == 95
    || n == 46
    || n == 45

abbrev pub all_tag_codes : String → Bool
all_tag_codes String.[] = true
all_tag_codes (String.◌∷◌ c s) = is_tag_code (code c) && all_tag_codes s

-- `TAG_RE.fullmatch`
unfoldable pub is_tag : String → Bool
is_tag s = leb 1 (count s) && leb (count s) 64 && all_tag_codes s

-- `_tag`
unfoldable pub tag : Json → String → Result ModelError String
tag (str value) label = do guard (is_tag value) (invalid_at label " is not a valid tag"); ok value
tag _ label = err (invalid_at label " is not a valid tag")

unfoldable pub validate_direct_tag_setting : Unicode → Json → Result ModelError String
validate_direct_tag_setting u value = do
  name ← tag value "direct tag"
  guard
      (not (
        contains (u.casefold name) ("direct" ∷ "jp" ∷ []) || contains name direct_setting_reserved))
      (invalid "direct tag is reserved for compatibility or Mihomo")
  ok name
