-- ===== src/Policy/Rebound.antt =====
-- What `rebind_direct` returns is valid and has the new direct tag.
use proxy_gateway_plus.Prelude.{
  String, false, not, Option, none, some, List, [], ◌∷◌, map, ◌==◌, ==_iff, String_eq, contains,
  Result, ok, ◌>>=◌, ◌≡◌, refl, sym, ap, ◌∙◌, Ensures, Ensures-bind, Ensures-guard, Ensures-step,
  Ensures-weaken, Ensures-eq, if-split, Bool-cases, inl, inr,
}
use proxy_gateway_plus.Prelude.Json.{
  Json, null, bool, int, float, not_finite, str, arr, obj, Fields, nil, of_list, to_list-of_list,
  get,
}
use proxy_gateway_plus.Policy.{ModelError, get_or, fetch, put, is_text, iterate, reserved_targets}
use proxy_gateway_plus.Policy.Dicts.{fetch-put, fetch-put_other, get_or-put}
use proxy_gateway_plus.Policy.Names.{Unicode, tag}
use proxy_gateway_plus.Policy.Group.{direct_items, only_direct, direct_tag}
use proxy_gateway_plus.Policy.Migrate.{migrate}
use proxy_gateway_plus.Policy.Migrated.{IsValid-migrate, checked_last}
use proxy_gateway_plus.Policy.Rename.{
  occupied_names, rebind_outbound, rename_references, rebind_to, rebind_direct,
}
use proxy_gateway_plus.Policy.Rename.Renamed.{get-rename}
use proxy_gateway_plus.Policy.Validate.Valid.{IsValid}
use proxy_gateway_plus.Policy.Validate.Scanned.{tag-Text}

-- Only the direct outbound is changed.
direct_items-rebind :
    (new : String) (items : List Json)
    → direct_items (map (rebind_outbound new) items)
      ≡ map (λ fs. put fs "tag" (str new)) (direct_items items)
unfolding direct_items rebind_outbound
direct_items-rebind new [] = refl
direct_items-rebind new (obj fs ∷ items) = elim (Bool-cases (is_text (fetch fs "type") "direct")) [
  | inl e ↦
      rw (e, ap (λ v. is_text v "direct") (fetch-put_other fs "tag" "type" (str new) refl) ∙ e)
        (ap (λ r. put fs "tag" (str new) ∷ r) (direct_items-rebind new items))
  | inr e ↦ rw (e, e) (direct_items-rebind new items)
]
direct_items-rebind new (null ∷ items) = direct_items-rebind new items
direct_items-rebind new (bool b ∷ items) = direct_items-rebind new items
direct_items-rebind new (int n ∷ items) = direct_items-rebind new items
direct_items-rebind new (float n ∷ items) = direct_items-rebind new items
direct_items-rebind new (not_finite ∷ items) = direct_items-rebind new items
direct_items-rebind new (str t ∷ items) = direct_items-rebind new items
direct_items-rebind new (arr xs ∷ items) = direct_items-rebind new items

only_direct-one :
    (items : List Fields) (old : String)
    → only_direct items ≡ ok old
    → (d : Fields) × (items ≡ d ∷ [])
unfolding only_direct
only_direct-one [] old e = cc
only_direct-one (d ∷ []) old e = (d, refl)
only_direct-one (d ∷ d' ∷ ds) old e = cc

-- The new tag is that of the only direct outbound.
only_direct-rebind :
    (items : List Json) (old new : String) (v : Json)
    → only_direct (direct_items items) ≡ ok old
    → tag v "direct tag" ≡ ok new
    → only_direct (direct_items (map (rebind_outbound new) items)) ≡ ok new
unfolding only_direct
only_direct-rebind items old new v one new_tag =
    let (d, e) = only_direct-one (direct_items items) old one in
    ap only_direct (direct_items-rebind new items ∙ ap (map (λ fs. put fs "tag" (str new))) e)
    ∙ ap (λ w. tag w "direct tag") (fetch-put d "tag" (str new))
    ∙ ap (λ w. tag w "direct tag")
        (sym
          (Ensures-eq (λ n. v ≡ str n) (tag v "direct tag") new (tag-Text v "direct tag") new_tag))
    ∙ new_tag

-- What is iterated over is there.
found :
    (fs : Fields) (key : String) (default : Json) (items : List Json)
    → iterate (fetch fs key) ≡ ok items
    → get_or fs key default ≡ fetch fs key
found fs key default items e = there (get fs key) e
  where
    there :
        (o : Option Json)
        → iterate (elim o [ none ↦ null | some v ↦ v ]) ≡ ok items
        → elim o [ none ↦ default | some v ↦ v ] ≡ elim o [ none ↦ null | some v ↦ v ]
    there none e = cc
    there (some v) e = refl

direct_tag-rebound :
    (model result : Fields) (items : List Json) (old new : String) (v : Json)
    → iterate (fetch model "outbounds") ≡ ok items
    → direct_tag model ≡ ok old
    → tag v "direct tag" ≡ ok new
    → get result "outbounds"
      ≡ get (put model "outbounds" (arr (of_list (map (rebind_outbound new) items)))) "outbounds"
    → direct_tag result ≡ ok new
unfolding direct_tag
direct_tag-rebound model result items old new v listed one new_tag same =
    ap (λ o. iterate (elim o [ none ↦ arr nil | some w ↦ w ]) >>= rest) same
    ∙ ap (λ w. iterate w >>= rest)
        (get_or-put model "outbounds" (arr (of_list (map (rebind_outbound new) items))) (arr nil))
    ∙ ap rest (to_list-of_list (map (rebind_outbound new) items))
    ∙ only_direct-rebind items old new v
        (sym (
            ap (λ w. iterate w >>= rest) (found model "outbounds" (arr nil) items listed)
            ∙ ap (λ r. r >>= rest) listed)
          ∙ one)
        new_tag
  where
    rest : List Json → Result ModelError String
    rest items = only_direct (direct_items items)

-- A valid model with a direct tag.
abbrev pub HasDirect : String → Fields → Type 0
HasDirect new model = IsValid model × (direct_tag model ≡ ok new)

HasDirect-rebind_to :
    (u : Unicode) (model : Fields) (old new : String) (v : Json)
    → direct_tag model ≡ ok old
    → tag v "direct tag" ≡ ok new
    → Ensures (HasDirect new) (rebind_to u model old new)
unfolding rebind_to
HasDirect-rebind_to u model old new v one new_tag =
    Ensures-guard _ (not (contains new reserved_targets)) _ _ (λ _.
      Ensures-step _ (occupied_names old model) _ (λ occupied _.
        Ensures-guard _ (not (contains new occupied)) _ _ (λ _.
          Ensures-step _ (iterate (fetch model "outbounds")) _ (λ items listed.
            Ensures-bind _ _
              (rename_references old new false
                (put model "outbounds" (arr (of_list (map (rebind_outbound new) items)))))
              _
              (get-rename old new false
                (put model "outbounds" (arr (of_list (map (rebind_outbound new) items)))))
              (λ result same. checked_last (HasDirect new) u result (λ valid. (
                valid,
                direct_tag-rebound model result items old new v listed one new_tag
                    (same "outbounds" refl refl),
              )))))))

-- What `rebind_direct` returns is a valid model, and its direct tag is the text that was given.
pub rebind_direct-HasDirect :
    (u : Unicode) (value v : Json) (result : Fields)
    → rebind_direct u value v ≡ ok result
    → (new : String) × (v ≡ str new) × HasDirect new result
unfolding rebind_direct
rebind_direct-HasDirect u value v result e =
    Ensures-eq Right (rebind_direct u value v) result
      (Ensures-step _ (migrate u value) _ (λ model migrated.
        Ensures-step _ (direct_tag model) _ (λ old one.
          Ensures-step _ (tag v "direct tag") _ (λ new given.
            if-split (Ensures Right) (new == old) _ _
              (λ same. (
                new,
                is_text_of new given,
                (
                  IsValid-migrate u value model migrated,
                  one ∙ ap ok (sym ((==_iff new old).0 same)),
                ),
              ))
              (λ _.
                Ensures-weaken _ _ (rebind_to u model old new)
                  (λ r h. (new, is_text_of new given, h))
                  (HasDirect-rebind_to u model old new v one given))))))
      e
  where
    Right : Fields → Type 0
    Right result = (new : String) × (v ≡ str new) × HasDirect new result

    is_text_of : (new : String) → tag v "direct tag" ≡ ok new → v ≡ str new
    is_text_of new given =
        Ensures-eq (λ n. v ≡ str n) (tag v "direct tag") new (tag-Text v "direct tag") given
