-- ===== src/Policy/Refused.antt =====
-- What `rebind_direct` refuses: a new direct tag that is taken.
use proxy_gateway_plus.Prelude.{
  String, Bool, true, false, not, List, [], ◌∷◌, ◌++◌, ◌==◌, ==_iff, String_eq, ℕ_eq, contains, ok,
  err, ◌≡◌, inl, inr, refl, sym, ap, subst, Bool-cases, arith,
}
use proxy_gateway_plus.Prelude.Contains.{
  contains_tail, contains-cases, contains-left, contains-right, contains-append,
}
use proxy_gateway_plus.Prelude.Json.{Json, str, Fields}
use proxy_gateway_plus.Policy.{invalid}
use proxy_gateway_plus.Policy.Names.{Unicode, tag}
use proxy_gateway_plus.Policy.Group.{direct_tag}
use proxy_gateway_plus.Policy.Migrate.{migrate}
use proxy_gateway_plus.Policy.Migrated.{IsValid-migrate}
use proxy_gateway_plus.Policy.Validate.{group_names, keep_if}
use proxy_gateway_plus.Policy.Validate.Reading.{tag_of, tags_of, text_of}
use proxy_gateway_plus.Policy.Validate.Scanned.{OutboundReads}
use proxy_gateway_plus.Policy.Validate.Parts.{GroupReads}
use proxy_gateway_plus.Policy.Validate.Valid.{outbounds_of, groups_of, names_of, IsValid}
use proxy_gateway_plus.Policy.Rename.{
  attribute, provider_names, occupied_names, rebind_to, rebind_direct,
}
use proxy_gateway_plus.Policy.Offered.{name_of, tags_and_names}

tag-attribute :
    (item : Json)
    → OutboundReads item
    → (t : String) × (attribute "tag" item ≡ ok (str t)) × (tag_of item ≡ t ∷ [])
tag-attribute item (fs, e, (t, tagged), _) = (
  t,
  subst (λ v. attribute "tag" v ≡ ok (str t)) (sym e) (ap ok tagged),
  subst (λ v. tag_of v ≡ t ∷ []) (sym e) (ap text_of tagged),
)

name-attribute :
    (item : Json)
    → GroupReads item
    → (t : String) × (attribute "name" item ≡ ok (str t)) × (name_of item ≡ t ∷ [])
name-attribute item (fs, e, (t, named)) = (
  t,
  subst (λ v. attribute "name" v ≡ ok (str t)) (sym e) (ap ok named),
  subst (λ v. name_of v ≡ t ∷ []) (sym e) (ap text_of named),
)

-- The names that a new direct tag must avoid.
abbrev taken : String → Fields → List String
taken old model =
    keep_if (λ name. not (name == old)) (tags_of (outbounds_of model))
    ++ group_names (groups_of model)
    ++ provider_names model "proxy-providers"
    ++ provider_names model "rule-providers"

occupied_names-taken :
    (old : String) (model : Fields)
    → IsValid model
    → occupied_names old model ≡ ok (taken old model)
unfolding occupied_names
occupied_names-taken old model valid =
    tags_and_names model valid (attribute "tag") (attribute "name") tag-attribute name-attribute
      (λ tags groups. ok (
        keep_if (λ name. not (name == old)) tags
        ++ groups
        ++ provider_names model "proxy-providers"
        ++ provider_names model "rule-providers"))

pub contains-keep_if :
    (p : String → Bool) (xs : List String) (x : String)
    → p x ≡ true
    → contains x xs ≡ true
    → contains x (keep_if p xs) ≡ true
unfolding contains
contains-keep_if p [] x h m = m
contains-keep_if p (y ∷ xs) x h m = elim (contains-cases x y xs m) [
  | inl e ↦ rw (subst (λ z. p z ≡ true) (sym e) h) (ground (arith, ==_iff y x))
  | inr t ↦ elim (Bool-cases (p y)) [
    | inl q ↦ rw q (contains_tail x y (keep_if p xs) (contains-keep_if p xs x h t))
    | inr q ↦ rw q (contains-keep_if p xs x h t)
  ]
]

contains-taken :
    (old new : String) (model : Fields)
    → (new == old) ≡ false
    → contains new (names_of model) ≡ true
    → contains new (taken old model) ≡ true
contains-taken old new model d m = elim (contains-append new (a ++ b ++ c) r m) [
  | inr h ↦ contains-right new (kept ++ b ++ c) r h
  | inl h ↦ contains-left new (kept ++ b ++ c) r (elim (contains-append new (a ++ b) c h) [
    | inr k ↦ contains-right new (kept ++ b) c k
    | inl k ↦ contains-left new (kept ++ b) c (elim (contains-append new a b k) [
      | inr l ↦ contains-right new kept b l
      | inl l ↦
          contains-left new kept b
            (contains-keep_if (λ name. not (name == old)) a new (rw d refl) l)
    ])
  ])
]
  where
    a : List String
    a = tags_of (outbounds_of model)

    kept : List String
    kept = keep_if (λ name. not (name == old)) a

    b : List String
    b = group_names (groups_of model)

    c : List String
    c = provider_names model "proxy-providers"

    r : List String
    r = provider_names model "rule-providers"

-- A new direct tag that names something else in the model is refused, whatever has the name.
pub rebind_direct_collision :
    (u : Unicode) (value : Json) (model : Fields) (old new : String)
    → migrate u value ≡ ok model
    → direct_tag model ≡ ok old
    → tag (str new) "direct tag" ≡ ok new
    → (new == old) ≡ false
    → contains new (names_of model) ≡ true
    → rebind_direct u value (str new)
      ≡ err (invalid "direct tag collides with an existing model name")
unfolding rebind_direct rebind_to
rebind_direct_collision u value model old new m o t d h =
    let valid = IsValid-migrate u value model m in
    rw
      (
        m,
        o,
        t,
        d,
        valid.free.1 new h,
        occupied_names-taken old model valid,
        contains-taken old new model d h,
      )
      refl
