-- ===== src/Policy/Dicts.antt =====
-- Reading a dict after an item is assigned.
use proxy_gateway_plus.Prelude.{
  String, true, false, if◌then◌else◌, ◌==◌, ==_iff, ==_refl, String_eq, none, some, ◌≡◌, refl, ap,
  arith, Bool-cases, inl, inr,
}
use proxy_gateway_plus.Prelude.Json.{Json, null, Fields, end, field, get}
use proxy_gateway_plus.Policy.{get_or, fetch, put}

pub get-put : (fs : Fields) (k : String) (v : Json) → get (put fs k v) k ≡ some v
get-put end k v = rw (==_refl k) refl
get-put (field j w fs) k v = elim (Bool-cases (j == k)) [
  | inl e ↦ rw (e, e) refl
  | inr e ↦ rw (e, e) (get-put fs k v)
]

pub get-put_other :
    (fs : Fields) (k j : String) (v : Json) → (k == j) ≡ false → get (put fs k v) j ≡ get fs j
get-put_other end k j v d = rw d refl
get-put_other (field i w fs) k j v d = elim (Bool-cases (i == k)) [
  | inl e ↦ rw (e, other i k j e d) refl
  | inr e ↦ rw e (ap (λ o. if i == j then some w else o) (get-put_other fs k j v d))
]
  where
    other : (i k j : String) → (i == k) ≡ true → (k == j) ≡ false → (i == j) ≡ false
    other i k j e d = ground (arith, ==_iff i k, ==_iff i j, ==_iff k j)

pub fetch-put : (fs : Fields) (k : String) (v : Json) → fetch (put fs k v) k ≡ v
fetch-put fs k v = ap (λ o. elim o [ none ↦ null | some w ↦ w ]) (get-put fs k v)

pub get_or-put : (fs : Fields) (k : String) (v default : Json) → get_or (put fs k v) k default ≡ v
get_or-put fs k v default = ap (λ o. elim o [ none ↦ default | some w ↦ w ]) (get-put fs k v)

pub fetch-put_other :
    (fs : Fields) (k j : String) (v : Json) → (k == j) ≡ false → fetch (put fs k v) j ≡ fetch fs j
fetch-put_other fs k j v d =
    ap (λ o. elim o [ none ↦ null | some w ↦ w ]) (get-put_other fs k j v d)

pub get_or-put_other :
    (fs : Fields) (k j : String) (v default : Json)
    → (k == j) ≡ false
    → get_or (put fs k v) j default ≡ get_or fs j default
get_or-put_other fs k j v default d =
    ap (λ o. elim o [ none ↦ default | some w ↦ w ]) (get-put_other fs k j v d)
