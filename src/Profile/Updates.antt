-- ===== src/Profile/Updates.antt =====
-- The lines of a profile with a key, and the three branches of the loop of `retarget_platform_text`.
use proxy_gateway_plus.Prelude.{
  true, false, none, some, List, [], ◌∷◌, if◌then◌else◌, ◌==◌, ==_iff, ℕ_eq, List_eq, contains, ◌≡◌,
  inl, inr, ap, ◌∙◌, subst, arith, Bool-cases,
}
use proxy_gateway_plus.Prelude.Texts.{Text}
use proxy_gateway_plus.Profile.{Values, value_of, is_set}
use proxy_gateway_plus.Profile.Resolve.{setting}
use proxy_gateway_plus.Profile.Retarget.{key_of, updated, update_line}

-- The lines with a key, and the lines whose keys are not updated.
unfoldable pub lines_with : Text → List Text → List Text
lines_with key [] = []
lines_with key (line ∷ lines) =
    let rest = lines_with key lines in if key_of line == key then line ∷ rest else rest

unfoldable pub other_lines : Values → List Text → List Text
other_lines updates [] = []
other_lines updates (line ∷ lines) =
    let rest = other_lines updates lines in
    if is_set (value_of updates (key_of line)) then rest else line ∷ rest

-- Each key is read back from the line that sets it, and is set once.
abbrev pub IsPlain : Values → Type 0
IsPlain [] = Unit
IsPlain ((key, v) ∷ updates) =
    ((w : Text) → key_of (setting key w) ≡ key) × (value_of updates key ≡ none) × IsPlain updates

pub key_of-setting :
    (updates : Values) (key v : Text)
    → IsPlain updates
    → value_of updates key ≡ some v
    → (w : Text) → key_of (setting key w) ≡ key
key_of-setting [] key v p e w = cc
key_of-setting ((k, u) ∷ updates) key v (reads, fresh, p) e w = elim (Bool-cases (k == key)) [
  | inl t ↦ subst (λ z. key_of (setting z w) ≡ z) ((==_iff k key).0 t) (reads w)
  | inr f ↦ key_of-setting updates key v p (ground (arith, e, f)) w
]

-- The three branches of the loop over the lines.
pub update_line-other :
    (updates : Values) (seen : List Text) (line : Text)
    → value_of updates (key_of line) ≡ none
    → update_line updates seen line ≡ (line ∷ [], seen)
unfolding update_line
update_line-other updates seen line e = ap (updated seen line) e

pub update_line-seen :
    (updates : Values) (seen : List Text) (line v : Text)
    → value_of updates (key_of line) ≡ some v
    → contains (key_of line) seen ≡ true
    → update_line updates seen line ≡ ([], seen)
unfolding update_line
update_line-seen updates seen line v e t =
    ap (updated seen line) e
    ∙ ap (λ b. if b then ([], seen) else (setting (key_of line) v ∷ [], key_of line ∷ seen)) t

pub update_line-new :
    (updates : Values) (seen : List Text) (line v : Text)
    → value_of updates (key_of line) ≡ some v
    → contains (key_of line) seen ≡ false
    → update_line updates seen line ≡ (setting (key_of line) v ∷ [], key_of line ∷ seen)
unfolding update_line
update_line-new updates seen line v e f =
    ap (updated seen line) e
    ∙ ap (λ b. if b then ([], seen) else (setting (key_of line) v ∷ [], key_of line ∷ seen)) f
