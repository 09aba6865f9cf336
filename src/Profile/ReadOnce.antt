-- ===== src/Profile/ReadOnce.antt =====
-- `read_values` of deploy/bot/pdgprofile.py and the lines that set a key.
use proxy_gateway_plus.Prelude.{
  Bool, true, false, not, Option, none, some, List, [], ◌∷◌, ◌++◌, if◌then◌else◌, ◌==◌, ==_iff,
  ℕ_eq, List_eq, contains, ok, ◌≡◌, refl, sym, ap, ◌∙◌, subst, inl, inr, Bool-cases, Option-cases,
  if-split, Ensures, Ensures-guard, Ensures-bind, Ensures-weaken, Ensures-eq,
}
use proxy_gateway_plus.Prelude.Texts.{Text, strip_text, splitlines}
use proxy_gateway_plus.Profile.{
  bad_line, duplicate_key, Values, value_of, is_set, split_equals, first_word, managed_keys,
  is_comment, add_value, read_pair, read_line, read_lines, read_values,
}

-- The value that a line sets a key to.
abbrev value_for : Text → Option (Text × Text) → Option Text
value_for key none = none
value_for key (some (k, v)) = if strip_text k == key then some (strip_text v) else none

abbrev pub set_by : Text → Text → Option Text
set_by key raw =
    if is_comment (strip_text raw) then none else value_for key (split_equals (strip_text raw))

abbrev pub onto_values : Option Text → List Text → List Text
onto_values none vs = vs
onto_values (some v) vs = v ∷ vs

-- All values that lines set a key to.
unfoldable pub all_values : Text → List Text → List Text
all_values key [] = []
all_values key (raw ∷ lines) = onto_values (set_by key raw) (all_values key lines)

-- A key with the value of a line more.
abbrev Grows : Text → Option Text → Values → Values → Type 0
Grows key set found found' =
    (vs : List Text)
    → onto_values (value_of found key) (onto_values set vs) ≡ onto_values (value_of found' key) vs

abbrev or_value : Option Text → Option Text → Option Text
or_value none other = other
or_value (some v) other = some v

grows :
    (o : Option Text) (b : Bool) (v : Text) (vs : List Text)
    → (b ≡ true → o ≡ none)
    → onto_values o (onto_values (if b then some v else none) vs)
      ≡ onto_values (or_value o (if b then some v else none)) vs
grows none b v vs h = refl
grows (some w) false v vs h = refl
grows (some w) true v vs h = cc (h refl)

unset : (o : Option Text) → not (is_set o) ≡ true → o ≡ none
unset none h = refl
unset (some v) h = cc

value_of-append :
    (found : Values) (key k v : Text)
    → value_of (found ++ (k, v) ∷ []) key
      ≡ or_value (value_of found key) (if k == key then some v else none)
value_of-append [] key k v = refl
value_of-append ((j, w) ∷ found) key k v = elim (Bool-cases (j == key)) [
  | inl t ↦ rw t refl
  | inr f ↦ rw f (value_of-append found key k v)
]

add_value-Grows :
    (key : Text) (found : Values) (raw k value : Text)
    → Ensures
        (Grows key (if k == key then some (strip_text value) else none) found)
        (add_value found raw k value)
unfolding add_value
add_value-Grows key found raw k value =
    Ensures-guard (Grows key (if k == key then some (strip_text value) else none) found) _ _ _ (λ _.
      Ensures-guard (Grows key (if k == key then some (strip_text value) else none) found)
        (not (is_set (value_of found k))) duplicate_key (ok (found ++ (k, strip_text value) ∷ []))
        (λ fresh vs.
          grows (value_of found key) (k == key) (strip_text value) vs (λ t.
            subst (λ j. value_of found j ≡ none) ((==_iff k key).0 t)
              (unset (value_of found k) fresh))
          ∙ ap (λ o. onto_values o vs) (sym (value_of-append found key k (strip_text value)))))

not_other :
    (key k : Text)
    → contains key managed_keys ≡ true
    → contains k managed_keys ≡ false
    → (k == key) ≡ false
not_other key k m f = elim (Bool-cases (k == key)) [
  | inl t ↦ cc (ap (λ j. contains j managed_keys) ((==_iff k key).0 t), m, f)
  | inr d ↦ d
]

read_pair-Grows :
    (key : Text) (found : Values) (raw : Text) (pair : Text × Text)
    → contains key managed_keys ≡ true
    → Ensures (Grows key (value_for key (some pair)) found) (read_pair found raw pair)
unfolding read_pair
read_pair-Grows key found raw (k, value) m =
    if-split (Ensures (Grows key (value_for key (some (k, value))) found))
      (contains (strip_text k) managed_keys) _ _
      (λ _. add_value-Grows key found raw (strip_text k) value)
      (λ other vs. rw (not_other key (strip_text k) m other) refl)

read_line-Grows :
    (key : Text) (found : Values) (raw : Text)
    → contains key managed_keys ≡ true
    → Ensures (Grows key (set_by key raw) found) (read_line found raw)
unfolding read_line
read_line-Grows key found raw m = elim (Bool-cases (is_comment (strip_text raw))) [
  | inl t ↦ rw t (λ vs. refl)
  | inr f ↦ elim (Option-cases (split_equals (strip_text raw))) [
    | inl e ↦
        rw (f, e)
          (Ensures-guard (Grows key none found)
            (not (contains (first_word (strip_text raw)) managed_keys)) bad_line (ok found)
            (λ _ vs. refl))
    | inr (pair, e) ↦ rw (f, e) (read_pair-Grows key found raw pair m)
  ]
]

read_lines-Grows :
    (key : Text) (found : Values) (lines : List Text)
    → contains key managed_keys ≡ true
    → Ensures
        (λ values.
          onto_values (value_of found key) (all_values key lines)
          ≡ onto_values (value_of values key) [])
        (read_lines found lines)
unfolding read_lines all_values
read_lines-Grows key found [] m = refl
read_lines-Grows key found (raw ∷ lines) m =
    Ensures-bind (Grows key (set_by key raw) found)
      (λ values.
        onto_values (value_of found key) (all_values key (raw ∷ lines))
        ≡ onto_values (value_of values key) [])
      (read_line found raw) (λ found'. read_lines found' lines) (read_line-Grows key found raw m)
      (λ found' grown.
        Ensures-weaken
          (λ values.
            onto_values (value_of found' key) (all_values key lines)
            ≡ onto_values (value_of values key) [])
          _ (read_lines found' lines) (λ values e. grown (all_values key lines) ∙ e)
          (read_lines-Grows key found' lines m))

-- In a profile that is read, a managed key that has a value is set by one line, to that value, and no
-- line sets one that has none.
pub read_values-all_values :
    (profile : Text) (values : Values) (key : Text)
    → contains key managed_keys ≡ true
    → read_values profile ≡ ok values
    → all_values key (splitlines profile) ≡ onto_values (value_of values key) []
unfolding read_values
read_values-all_values profile values key m e =
    Ensures-eq
      (λ values. all_values key (splitlines profile) ≡ onto_values (value_of values key) [])
      (read_lines [] (splitlines profile)) values (read_lines-Grows key [] (splitlines profile) m) e
