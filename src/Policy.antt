-- ===== src/Policy.antt =====
-- deploy/bot/pdgmodel.py: the routing model, its names, outbounds, policy groups and routes. Here are
-- its constants, its exceptions, and what Python does with the values that it reads.
pub mod Names
pub mod Group
pub mod Cycle
pub mod Validate
pub mod Legacy
pub mod Canonical
pub mod Migrate
pub mod Rename
pub mod Dicts
pub mod Rebound
pub mod Migrated
pub mod Offered
pub mod Beside
pub mod Refused
pub mod Sample
pub mod Tests
pub mod Rebind
use Prim.Native.String.{◌++◌ as text_append}
use proxy_gateway_plus.Prelude.{
  ℕ, String, Bool, true, false, not, ◌&&◌, ◌||◌, Option, none, some, List, [], ◌∷◌, if◌then◌else◌,
  ◌==◌, ℕ_eq, String_eq, all, length, contains, Result, ok, err, Raises, Raises-bind, ◌≡◌,
}
use proxy_gateway_plus.Prelude.Contains.{contains_head, contains_tail}
use proxy_gateway_plus.Prelude.Json.{
  Json, null, bool, int, float, not_finite, str, arr, obj, Items, nil, cons, Fields, end, field, ℤ,
  pos, negsuc, to_list, get, keys,
}

-- The reasons of `NameValidationError`; Unicode's texts have no lone surrogates, so that the reason
-- "encoding" does not occur.
pub data Reason : Type 0 where
  not_text bad_length unsafe not_canonical : Reason

-- `NameValidationError` with its label, `ModelError` with its message, and the exceptions of Python
-- for values of another type.
pub data ModelError : Type 0 where
  bad_name : Reason → String → ModelError
  invalid : String → ModelError
  type_error attribute_error key_error recursion_error : ModelError

-- A message that ends in a name.
abbrev pub invalid_at : String → String → ModelError
invalid_at message name = invalid (text_append message name)

abbrev pub proxy_outbound_types : List String
proxy_outbound_types =
    "shadowsocks" ∷ "vmess" ∷ "trojan" ∷ "vless" ∷ "hysteria" ∷ "hysteria2" ∷ "tuic" ∷ "anytls"
    ∷ "shadowtls" ∷ "socks" ∷ "http" ∷ []

abbrev pub routable_outbound_types : List String
routable_outbound_types = "direct" ∷ "block" ∷ proxy_outbound_types

abbrev pub reserved_targets : List String
reserved_targets =
    "DIRECT" ∷ "REJECT" ∷ "REJECT-DROP" ∷ "PASS" ∷ "PASS-RULE" ∷ "COMPATIBLE" ∷ "GLOBAL" ∷ []

abbrev pub v3_meta_fields : List String
v3_meta_fields = "schema" ∷ "policy-groups" ∷ "mihomo" ∷ []

abbrev pub v3_mihomo_fields : List String
v3_mihomo_fields = "proxy-providers" ∷ "rule-providers" ∷ "advanced" ∷ "managed-files" ∷ []

abbrev pub direct_setting_reserved : List String
direct_setting_reserved = "block" ∷ "dns-out" ∷ reserved_targets

abbrev pub default_test_url : String
default_test_url = "https://www.gstatic.com/generate_204"

-- `d.get(k, default)` and `d.get(k)`
abbrev pub get_or : Fields → String → Json → Json
get_or fs k default = elim (get fs k) [ none ↦ default | some v ↦ v ]

abbrev pub fetch : Fields → String → Json
fetch fs k = get_or fs k null

-- `d[k] = v`
abbrev pub put : Fields → String → Json → Fields
put end k v = field k v end
put (field j w fs) k v = if j == k then field j v fs else field j w (put fs k v)

-- `v == s` for a text `s`
abbrev pub is_text : Json → String → Bool
is_text (str t) s = t == s
is_text _ s = false

-- `v in texts`, which raises on a list or a dict
abbrev pub is_in : Json → List String → Result ModelError Bool
is_in (str t) texts = ok (contains t texts)
is_in (arr xs) texts = err type_error
is_in (obj fs) texts = err type_error
is_in _ texts = ok false

abbrev pub is_zero : ℤ → Bool
is_zero (pos n) = n == 0
is_zero _ = false

-- `bool(v)`
abbrev pub is_true : Json → Bool
is_true null = false
is_true (bool b) = b
is_true (int n) = not (is_zero n)
is_true (float n) = not (is_zero n)
is_true not_finite = true
is_true (str s) = not (s == "")
is_true (arr nil) = false
is_true (arr _) = true
is_true (obj end) = false
is_true (obj _) = true

-- `v or default`
abbrev pub or_else : Json → Json → Json
or_else v default = if is_true v then v else default

abbrev pub texts : List String → List Json
texts [] = []
texts (s ∷ ss) = str s ∷ texts ss

abbrev pub characters : String → List Json
characters String.[] = []
characters (String.◌∷◌ c s) = str (String.◌∷◌ c String.[]) ∷ characters s

-- `for item in v`
abbrev pub iterate : Json → Result ModelError (List Json)
iterate (arr xs) = ok (to_list xs)
iterate (obj fs) = ok (texts (keys fs))
iterate (str s) = ok (characters s)
iterate _ = err type_error

abbrev pub as_list : Json → ModelError → Result ModelError (List Json)
as_list (arr xs) e = ok (to_list xs)
as_list _ e = err e

abbrev pub as_dict : Json → ModelError → Result ModelError Fields
as_dict (obj fs) e = ok fs
as_dict _ e = err e

-- `set(xs) <= set(ys)` and `set(xs) == set(ys)`
abbrev pub subset : List String → List String → Bool
subset xs ys = all (λ x. contains x ys) xs

abbrev pub same_set : List String → List String → Bool
same_set xs ys = subset xs ys && subset ys xs

-- `set(xs)`
abbrev pub distinct : List String → List String
distinct [] = []
distinct (x ∷ xs) = let rest = distinct xs in if contains x rest then rest else x ∷ rest

-- The number that a whole value is in comparisons: true is 1.
abbrev pub whole : Json → Option ℤ
whole (bool true) = some (pos 1)
whole (bool false) = some (pos 0)
whole (int n) = some n
whole (float n) = some n
whole _ = none

abbrev pub whole_is : ℕ → Option ℤ → Bool
whole_is n (some (pos k)) = k == n
whole_is n _ = false

-- `v == n`
abbrev pub is_number : Json → ℕ → Bool
is_number v n = whole_is n (whole v)

-- `v == SCHEMA_VERSION`
abbrev pub is_current : Json → Bool
is_current v = is_number v 3

-- A loop that carries a value and stops at the first exception.
unfoldable pub fold_result {ℓ κ} :
    {A : Type ℓ} {B : Type κ} → (B → A → Result ModelError B) → B → List A → Result ModelError B
fold_result f b [] = ok b
fold_result f b (x ∷ xs) = elim (f b x) [ err e ↦ err e | ok c ↦ fold_result f c xs ]

-- What holds of the exceptions of a loop's steps holds of the loop's.
pub Raises-fold {κ ν} :
    {B : Type κ} (P : ModelError → Type ν) (step : B → String → Result ModelError B)
    (names : List String)
    → ((b : B) (name : String) → contains name names ≡ true → Raises P (step b name))
    → (b : B) → Raises P (fold_result step b names)
unfolding fold_result
Raises-fold P step [] h b = tt
Raises-fold P step (name ∷ names) h b =
    Raises-bind P (step b name) (λ after. fold_result step after names)
      (h b name (contains_head name names))
      (λ after _. Raises-fold P step names (λ v n m. h v n (contains_tail n name names m)) after)
