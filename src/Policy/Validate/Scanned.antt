-- ===== src/Policy/Validate/Scanned.antt =====
-- The loop over the outbounds collects their tags, which differ, and the tags of the exits.
use mathlib.Core.List.{append_assoc, append-nil}
use proxy_gateway_plus.Prelude.{
  String, Bool, true, false, not, List, [], ◌∷◌, ◌++◌, if◌then◌else◌, ◌==◌, ==_iff, String_eq,
  contains, Result, ok, ◌≡◌, refl, sym, ap, ◌∙◌, All, Ensures, Ensures-bind, Ensures-guard,
  Ensures-step, Ensures-weaken, if-holds, arith, Bool-cases, inl, inr, Ensures-eq,
}
use proxy_gateway_plus.Prelude.Json.{
  Json, null, bool, int, float, not_finite, str, arr, obj, Fields,
}
use proxy_gateway_plus.Prelude.Contains.{contains-append}
use proxy_gateway_plus.Prelude.Pigeonhole.{Unique}
use proxy_gateway_plus.Policy.{
  ModelError, invalid_at, proxy_outbound_types, routable_outbound_types, fetch, is_in, fold_result,
}
use proxy_gateway_plus.Policy.Names.{Unicode, validate_name, normalize_text, tag, is_tag}
use proxy_gateway_plus.Policy.Validate.{Scan, scan_fields, scan_outbound}
use proxy_gateway_plus.Policy.Validate.Reading.{
  collect, text_of, tag_of, exit_of, is_ok_true, tags_of, exits_in,
}

-- A loop whose steps add what an item says to a list.
pub fold-collects {ℓ κ μ} :
    {A : Type ℓ} {B : Type κ} {C : Type μ} (view : B → List C) (f : A → List C)
    (step : B → A → Result ModelError B)
    → ((b : B) (x : A) → Ensures (λ c. view c ≡ view b ++ f x) (step b x))
    → (xs : List A) (b : B) → Ensures (λ c. view c ≡ view b ++ collect f xs) (fold_result step b xs)
unfolding fold_result
fold-collects view f step h [] b = sym (append-nil (view b))
fold-collects view f step h (x ∷ xs) b =
    Ensures-bind (λ c. view c ≡ view b ++ f x) _ (step b x) _ (h b x)
      (λ c e.
        Ensures-weaken _ _ (fold_result step c xs)
          (λ d e'.
            e' ∙ ap (λ ys. ys ++ collect f xs) e ∙ append_assoc (view b) (f x) (collect f xs))
          (fold-collects view f step h xs c))

-- A loop keeps what its steps keep.
pub fold-keeps {ℓ κ μ} :
    {A : Type ℓ} {B : Type κ} (P : B → Type μ) (step : B → A → Result ModelError B)
    → ((b : B) (x : A) → P b → Ensures P (step b x))
    → (xs : List A) (b : B) → P b
    → Ensures P (fold_result step b xs)
unfolding fold_result
fold-keeps P step h [] b p = p
fold-keeps P step h (x ∷ xs) b p =
    Ensures-bind P P (step b x) _ (h b x p) (λ c q. fold-keeps P step h xs c q)

-- What each step says of its item holds of all items.
pub fold-All {ℓ κ μ} :
    {A : Type ℓ} {B : Type κ} (Q : A → Type μ) (step : B → A → Result ModelError B)
    → ((b : B) (x : A) → Ensures (λ _. Q x) (step b x))
    → (xs : List A) (b : B) → Ensures (λ _. All Q xs) (fold_result step b xs)
unfolding fold_result
fold-All Q step h [] b = tt
fold-All Q step h (x ∷ xs) b =
    Ensures-bind (λ _. Q x) _ (step b x) _ (h b x)
      (λ c q. Ensures-weaken _ _ (fold_result step c xs) (λ _ qs. (q, qs)) (fold-All Q step h xs c))

pub Unique-snoc :
    (xs : List String) (x : String) → contains x xs ≡ false → Unique xs → Unique (xs ++ x ∷ [])
unfolding contains
Unique-snoc [] x f u = (refl, tt)
Unique-snoc (y ∷ xs) x f (fresh, u) = (
  elim (Bool-cases (contains y (xs ++ x ∷ []))) [
    | inr e ↦ e
    | inl t ↦ elim (contains-append y xs (x ∷ []) t) [
      | inl m ↦ cc
      | inr m ↦ ground (arith, ==_iff x y, ==_iff y x)
    ]
  ],
  Unique-snoc xs x (ground arith) u,
)

-- A name that is accepted is the text that was given.
pub validate_name-Text :
    (u : Unicode) (v : Json) (label : String)
    → Ensures (λ name. v ≡ str name) (validate_name u v label)
unfolding validate_name
validate_name-Text u (str s) label =
    Ensures-step _ (normalize_text u s label) _
      (λ name _. Ensures-guard _ (name == s) _ _ (λ e. ap str (sym ((==_iff name s).0 e))))
validate_name-Text u null label = tt
validate_name-Text u (bool b) label = tt
validate_name-Text u (int n) label = tt
validate_name-Text u (float n) label = tt
validate_name-Text u not_finite label = tt
validate_name-Text u (arr xs) label = tt
validate_name-Text u (obj fs) label = tt

pub tag-Text : (v : Json) (label : String) → Ensures (λ name. v ≡ str name) (tag v label)
unfolding tag
tag-Text (str s) label =
    Ensures-guard (λ name. str s ≡ str name) (is_tag s) (invalid_at label " is not a valid tag")
      (ok s) (λ e. refl)
tag-Text null label = tt
tag-Text (bool b) label = tt
tag-Text (int n) label = tt
tag-Text (float n) label = tt
tag-Text not_finite label = tt
tag-Text (arr xs) label = tt
tag-Text (obj fs) label = tt

-- An outbound is a dict whose tag is a text, and its type can be looked up.
abbrev pub OutboundReads : Json → Type 0
OutboundReads item =
    (outbound : Fields) × (item ≡ obj outbound)
    × ((t : String) × (fetch outbound "tag" ≡ str t))
    × ((b : Bool) × (is_in (fetch outbound "type") routable_outbound_types ≡ ok b))

-- What one outbound adds.
abbrev Adds : Scan → Json → Scan → Type 0
Adds s item s' =
    (s'.names ≡ s.names ++ tag_of item)
    × (s'.routable ≡ s.routable ++ exit_of item)
    × (Unique s.names → Unique s'.names)
    × OutboundReads item

chosen :
    (s : Scan) (fs : Fields) (b : Bool)
    → is_in (fetch fs "type") routable_outbound_types ≡ ok b
    → s.routable ++ elim b [ true ↦ text_of (fetch fs "tag") | false ↦ [] ]
      ≡ s.routable ++ exit_of (obj fs)
chosen s fs b e =
    ap (λ r. s.routable ++ elim (is_ok_true r) [ true ↦ text_of (fetch fs "tag") | false ↦ [] ])
      (sym e)

routable-exit :
    (s : Scan) (fs : Fields) (name : String) (b : Bool)
    → fetch fs "tag" ≡ str name
    → is_in (fetch fs "type") routable_outbound_types ≡ ok b
    → (if b then s.routable ++ name ∷ [] else s.routable) ≡ s.routable ++ exit_of (obj fs)
routable-exit s fs name true t e = ap (λ v. s.routable ++ text_of v) (sym t) ∙ chosen s fs true e
routable-exit s fs name false t e = sym (append-nil s.routable) ∙ chosen s fs false e

Adds-scan : (u : Unicode) (s : Scan) (item : Json) → Ensures (Adds s item) (scan_outbound u s item)
unfolding scan_outbound scan_fields
Adds-scan u s (obj fs) =
    Ensures-step _ (is_in (fetch fs "type") proxy_outbound_types) _ (λ is_proxy _.
      Ensures-bind (λ name. fetch fs "tag" ≡ str name) _ _ _
        (if-holds (Ensures (λ name. fetch fs "tag" ≡ str name)) is_proxy _ _
          (validate_name-Text u (fetch fs "tag") "outbound tag")
          (tag-Text (fetch fs "tag") "outbound tag"))
        (λ name t. Ensures-guard _ (not (contains name s.names)) _ _ (λ fresh.
          Ensures-step _ (is_in (fetch fs "type") ("selector" ∷ "urltest" ∷ [])) _ (λ is_group _.
            Ensures-guard _ (not is_group) _ _ (λ _.
              Ensures-step _ (is_in (fetch fs "type") routable_outbound_types) _ (λ b e. (
                ap (λ v. s.names ++ text_of v) (sym t),
                routable-exit s fs name b t e,
                Unique-snoc s.names name (ground (arith, fresh)),
                (fs, refl, (name, t), (b, e)),
              )))))))
Adds-scan u s null = tt
Adds-scan u s (bool b) = tt
Adds-scan u s (int n) = tt
Adds-scan u s (float n) = tt
Adds-scan u s not_finite = tt
Adds-scan u s (str t) = tt
Adds-scan u s (arr xs) = tt

abbrev pub no_scan : Scan
no_scan = record { names = []; routable = [] }

-- The names of the scan are the tags, which differ, and its exits are those that are read.
pub scan-Reading :
    (u : Unicode) (items : List Json) (s : Scan)
    → fold_result (scan_outbound u) no_scan items ≡ ok s
    → (s.names ≡ tags_of items)
      × (s.routable ≡ exits_in items)
      × Unique s.names
      × All OutboundReads items
scan-Reading u items s e = (
  Ensures-eq _ (fold_result (scan_outbound u) no_scan items) s
      (fold-collects (λ (t : Scan). t.names) tag_of (scan_outbound u)
        (λ t x. Ensures-weaken _ _ (scan_outbound u t x) (λ t' a. a.0) (Adds-scan u t x)) items
        no_scan)
      e,
  Ensures-eq _ (fold_result (scan_outbound u) no_scan items) s
      (fold-collects (λ (t : Scan). t.routable) exit_of (scan_outbound u)
        (λ t x. Ensures-weaken _ _ (scan_outbound u t x) (λ t' a. a.1) (Adds-scan u t x)) items
        no_scan)
      e,
  Ensures-eq _ (fold_result (scan_outbound u) no_scan items) s
      (fold-keeps (λ (t : Scan). Unique t.names) (scan_outbound u)
        (λ t x w. Ensures-weaken _ _ (scan_outbound u t x) (λ t' a. a.2 w) (Adds-scan u t x)) items
        no_scan tt)
      e,
  Ensures-eq _ (fold_result (scan_outbound u) no_scan items) s
      (fold-All OutboundReads (scan_outbound u)
        (λ t x. Ensures-weaken _ _ (scan_outbound u t x) (λ t' a. a.3) (Adds-scan u t x)) items
        no_scan)
      e,
)
