-- ===== src/Policy/Offered.antt =====
-- What the rest of the program is told of a valid model: `routable_tags`, `model_namespace` and
-- `validate_ruleset_namespace`.
use proxy_gateway_plus.Prelude.{
  String, Bool, true, false, Option, none, some, List, [], ◌∷◌, ◌++◌, String_eq, ℕ_eq, Result, ok,
  err, ◌>>=◌, ◌≡◌, refl, sym, ap, ◌∙◌, subst, All, map_result,
}
use proxy_gateway_plus.Prelude.Json.{Json, null, str, arr, obj, Items, Fields, to_list, get}
use proxy_gateway_plus.Policy.{
  ModelError, fetch, iterate, texts, is_in, routable_outbound_types, distinct,
}
use proxy_gateway_plus.Policy.Names.{Unicode}
use proxy_gateway_plus.Policy.Group.{policy_groups, list_or_empty}
use proxy_gateway_plus.Policy.Migrate.{migrate}
use proxy_gateway_plus.Policy.Migrated.{IsValid-migrate}
use proxy_gateway_plus.Policy.Validate.{group_names}
use proxy_gateway_plus.Policy.Validate.Reading.{
  collect, text_of, tag_of, exit_of, is_ok_true, tags_of, exits_in, parts_of,
}
use proxy_gateway_plus.Policy.Validate.Scanned.{OutboundReads}
use proxy_gateway_plus.Policy.Validate.Parts.{GroupReads}
use proxy_gateway_plus.Policy.Validate.Valid.{
  outbounds_of, groups_of, targets_of, names_of, IsValid,
}
use proxy_gateway_plus.Policy.Rename.{
  item_at, if_text, exits_of, gather, value_at, routable_tags_unchecked, routable_tags, names_in,
  provider_names, model_namespace,
}

texts-append : (xs ys : List String) → texts (xs ++ ys) ≡ texts xs ++ texts ys
texts-append [] ys = refl
texts-append (x ∷ xs) ys = ap (λ r. str x ∷ r) (texts-append xs ys)

-- A value that is read is there.
item_at-fetch :
    (fs : Fields) (key : String) (t : String) → fetch fs key ≡ str t → item_at fs key ≡ ok (str t)
item_at-fetch fs key t e = there (get fs key) e
  where
    there :
        (o : Option Json)
        → elim o [ none ↦ null | some v ↦ v ] ≡ str t
        → elim o [ none ↦ err ModelError.key_error | some v ↦ ok v ] ≡ ok (str t)
    there none e = cc
    there (some v) e = ap ok e

exits_of-text : (item : Json) → OutboundReads item → exits_of item ≡ ok (texts (exit_of item))
unfolding exits_of
exits_of-text item (fs, e, (t, tagged), (b, typed)) =
    subst (λ v. exits_of v ≡ ok (texts (exit_of v))) (sym e)
      (chosen b typed ∙ sym (ap (λ r. ok (texts (pick (is_ok_true r)))) typed))
  where
    pick : Bool → List String
    pick b = elim b [ true ↦ text_of (fetch fs "tag") | false ↦ [] ]

    exit_json : (b : Bool) → if_text b (fetch fs "tag") ≡ texts (pick b)
    exit_json true = rw tagged refl
    exit_json false = refl

    chosen :
        (b : Bool)
        → is_in (fetch fs "type") routable_outbound_types ≡ ok b
        → exits_of (obj fs) ≡ ok (texts (pick b))
    chosen b i = ap (λ r. r >>= λ c. ok (if_text c (fetch fs "tag"))) i ∙ ap ok (exit_json b)

-- A loop that collects texts.
gather-texts :
    (Q : Json → Type 0) (f : Json → Result ModelError (List Json)) (g : Json → List String)
    → ((item : Json) → Q item → f item ≡ ok (texts (g item)))
    → (items : List Json) → All Q items
    → gather f items ≡ ok (texts (collect g items))
unfolding gather
gather-texts Q f g h [] q = refl
gather-texts Q f g h (item ∷ items) (q, qs) =
    (λ k. h item q k >>= λ found. gather-texts Q f g h items qs k >>= λ rest. ok (found ++ rest))
    ∙ ap ok (sym (texts-append (g item) (collect g items)))

-- A loop that reads one text of each item.
pub read-texts :
    (Q : Json → Type 0) (read : Json → Result ModelError Json) (g : Json → List String)
    → ((item : Json) → Q item → (t : String) × (read item ≡ ok (str t)) × (g item ≡ t ∷ []))
    → (items : List Json) → All Q items
    → map_result read items ≡ ok (texts (collect g items))
unfolding map_result
read-texts Q read g h [] q = refl
read-texts Q read g h (item ∷ items) (q, qs) =
    let (t, value, one) = h item q in
    (λ k. value k >>= λ y. read-texts Q read g h items qs k >>= λ ys. ok (y ∷ ys))
    ∙ ap (λ ts. ok (texts (ts ++ collect g items))) (sym one)

tag-text :
    (item : Json)
    → OutboundReads item
    → (t : String) × (value_at "tag" item ≡ ok (str t)) × (tag_of item ≡ t ∷ [])
tag-text item (fs, e, (t, tagged), _) = (
  t,
  subst (λ v. value_at "tag" v ≡ ok (str t)) (sym e) (item_at-fetch fs "tag" t tagged),
  subst (λ v. tag_of v ≡ t ∷ []) (sym e) (ap text_of tagged),
)

abbrev pub name_of : Json → List String
name_of (obj fs) = text_of (fetch fs "name")
name_of _ = []

name-text :
    (item : Json)
    → GroupReads item
    → (t : String) × (value_at "name" item ≡ ok (str t)) × (name_of item ≡ t ∷ [])
name-text item (fs, e, (t, named)) = (
  t,
  subst (λ v. value_at "name" v ≡ ok (str t)) (sym e) (item_at-fetch fs "name" t named),
  subst (λ v. name_of v ≡ t ∷ []) (sym e) (ap text_of named),
)

-- The names of the groups that are read.
pub group_names-read :
    (items : List Json)
    → All GroupReads items
    → collect name_of items ≡ group_names (parts_of items)
group_names-read [] q = refl
group_names-read (item ∷ items) ((fs, e, (t, named)), qs) =
    subst (λ v. collect name_of (v ∷ items) ≡ group_names (parts_of (v ∷ items))) (sym e)
      (rw named (ap (λ r. t ∷ r) (group_names-read items qs)))

-- A dict's value that is a list is found.
item_at-list :
    (fs : Fields) (key : String) (items : Items)
    → fetch fs key ≡ arr items
    → item_at fs key ≡ ok (arr items)
item_at-list fs key items e = there (get fs key) e
  where
    there :
        (o : Option Json)
        → elim o [ none ↦ null | some v ↦ v ] ≡ arr items
        → elim o [ none ↦ err ModelError.key_error | some v ↦ ok v ] ≡ ok (arr items)
    there none e = cc
    there (some v) e = ap ok e

unchecked-texts :
    (model : Fields) → IsValid model → routable_tags_unchecked model ≡ ok (texts (targets_of model))
unfolding routable_tags_unchecked policy_groups
unchecked-texts model valid =
    let (items, listed) = valid.outbounds in
    (λ k. item_at-list model "outbounds" items listed k >>= λ v. iterate v >>= λ outbounds.
    gather exits_of outbounds >>= λ exits.
    map_result (value_at "name") (policy_groups model) >>= λ groups. ok (exits ++ groups))
    ∙ (λ k.
        gather-texts OutboundReads exits_of exit_of exits_of-text (to_list items)
          (subst (λ v. All OutboundReads (list_or_empty v)) listed valid.each_outbound) k
        >>= λ exits. names k >>= λ groups. ok (exits ++ groups))
    ∙ ap ok (sym (texts-append (exits_in (to_list items)) (group_names (groups_of model))))
    ∙ ap (λ v. ok (texts (exits_in (list_or_empty v) ++ group_names (groups_of model))))
        (sym listed)
  where
    names :
        map_result (value_at "name") (policy_groups model)
        ≡ ok (texts (group_names (groups_of model)))
    names =
        read-texts GroupReads (value_at "name") name_of name-text (policy_groups model)
          valid.each_group
        ∙ ap (λ ns. ok (texts ns)) (group_names-read (policy_groups model) valid.each_group)

-- When migration returns a model, `routable_tags` returns the tags of its exits and the names of its
-- groups, and these are all texts that its route may name.
pub routable_tags-targets :
    (u : Unicode) (value : Json) (model : Fields)
    → migrate u value ≡ ok model
    → routable_tags u value ≡ ok (texts (targets_of model))
unfolding routable_tags
routable_tags-targets u value model e =
    ap (λ r. r >>= routable_tags_unchecked) e
    ∙ unchecked-texts model (IsValid-migrate u value model e)

names_in-texts : (ss : List String) → names_in (texts ss) ≡ ss
names_in-texts [] = refl
names_in-texts (s ∷ ss) = ap (λ r. s ∷ r) (names_in-texts ss)

-- The tags and names that two loops read from a valid model.
pub tags_and_names :
    (model : Fields)
    → IsValid model
    → (tag name : Json → Result ModelError Json)
    → ((item : Json)
        → OutboundReads item
        → (t : String) × (tag item ≡ ok (str t)) × (tag_of item ≡ t ∷ []))
    → ((item : Json)
        → GroupReads item
        → (t : String) × (name item ≡ ok (str t)) × (name_of item ≡ t ∷ []))
    → {A : Type 0} (rest : List String → List String → Result ModelError A)
    → (iterate (fetch model "outbounds") >>= λ outbounds. map_result tag outbounds >>= λ tags.
        map_result name (policy_groups model) >>= λ groups. rest (names_in tags) (names_in groups))
      ≡ rest (tags_of (outbounds_of model)) (group_names (groups_of model))
unfolding policy_groups
tags_and_names model valid tag name h k rest =
    let (items, listed) = valid.outbounds in
    (λ i. iterate (listed i) >>= λ outbounds. map_result tag outbounds >>= λ tags.
    map_result name (policy_groups model) >>= λ groups. rest (names_in tags) (names_in groups))
    ∙ (λ i.
        read-texts OutboundReads tag tag_of h (to_list items)
          (subst (λ v. All OutboundReads (list_or_empty v)) listed valid.each_outbound) i
        >>= λ tags.
            read-texts GroupReads name name_of k (policy_groups model) valid.each_group i
            >>= λ groups. rest (names_in tags) (names_in groups))
    ∙ (λ i.
        rest (names_in-texts (tags_of (to_list items)) i)
          (names_in-texts (collect name_of (policy_groups model)) i))
    ∙ (λ i.
        rest (tags_of (list_or_empty (sym listed i)))
          (group_names-read (policy_groups model) valid.each_group i))

-- When migration returns a model, `model_namespace` returns the set of its names: the tags of its
-- outbounds, the names of its groups and those of its providers.
pub model_namespace-names :
    (u : Unicode) (value : Json) (model : Fields)
    → migrate u value ≡ ok model
    → model_namespace u value ≡ ok (distinct (names_of model))
unfolding model_namespace
model_namespace-names u value model e =
    (λ i. e i >>= λ canonical. iterate (fetch canonical "outbounds") >>= λ outbounds.
    map_result (value_at "tag") outbounds >>= λ tags.
    map_result (value_at "name") (policy_groups canonical) >>= λ groups. ok (
      distinct (
        names_in tags
        ++ names_in groups
        ++ provider_names canonical "proxy-providers"
        ++ provider_names canonical "rule-providers")))
    ∙ tags_and_names model (IsValid-migrate u value model e) (value_at "tag") (value_at "name")
        tag-text name-text
        (λ tags groups. ok (
          distinct (
            tags
            ++ groups
            ++ provider_names model "proxy-providers"
            ++ provider_names model "rule-providers")))
