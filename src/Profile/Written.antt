-- ===== src/Profile/Written.antt =====
-- The loop of `retarget_platform_text` (deploy/bot/pdgprofile.py) on the keys that it updates.
use mathlib.Core.Option.{some-injective}
use proxy_gateway_plus.Prelude.{
  Bool, true, false, none, some, List, [], ◌∷◌, ◌++◌, if◌then◌else◌, ◌==◌, ==_iff, ==_refl, ==_ne,
  ℕ_eq, List_eq, contains, ◌≡◌, inl, inr, refl, sym, ap, ◌∙◌, subst, arith, Bool-cases,
  Option-cases,
}
use proxy_gateway_plus.Prelude.Texts.{Text}
use proxy_gateway_plus.Profile.{Values, value_of}
use proxy_gateway_plus.Profile.Resolve.{setting}
use proxy_gateway_plus.Profile.Retarget.{key_of, missing_lines, update_lines}
use proxy_gateway_plus.Profile.Updates.{
  lines_with, IsPlain, key_of-setting, update_line-other, update_line-seen, update_line-new,
}

-- Each update that no line has had is written once at the end.
lines_with-missing_none :
    (key : Text) (us : Values) (seen : List Text)
    → IsPlain us
    → value_of us key ≡ none
    → lines_with key (missing_lines us seen) ≡ []
unfolding lines_with missing_lines
lines_with-missing_none key [] seen p e = refl
lines_with-missing_none key ((k, v) ∷ us) seen (reads, fresh, p) e =
    elim (Bool-cases (contains k seen)) [
      | inl t ↦ rw t (lines_with-missing_none key us seen p (ground arith))
      | inr f ↦
          rw (f, reads v, differs (k == key) e)
            (lines_with-missing_none key us seen p (ground arith))
    ]
  where
    differs : (b : Bool) → (if b then some v else value_of us key) ≡ none → b ≡ false
    differs true e = cc
    differs false e = refl

lines_with-first :
    (key v : Text) (us : Values) (seen : List Text)
    → IsPlain ((key, v) ∷ us)
    → lines_with key (missing_lines ((key, v) ∷ us) seen)
      ≡ (if contains key seen then [] else setting key v ∷ [])
unfolding lines_with missing_lines
lines_with-first key v us seen (reads, fresh, p) = elim (Bool-cases (contains key seen)) [
  | inl t ↦ rw t (lines_with-missing_none key us seen p fresh)
  | inr f ↦
      rw (f, reads v, ==_refl key)
        (ap (λ r. setting key v ∷ r) (lines_with-missing_none key us seen p fresh))
]

lines_with-missing :
    (key v : Text) (us : Values) (seen : List Text)
    → IsPlain us
    → value_of us key ≡ some v
    → lines_with key (missing_lines us seen)
      ≡ (if contains key seen then [] else setting key v ∷ [])
unfolding lines_with missing_lines
lines_with-missing key v [] seen p e = cc
lines_with-missing key v ((k, w) ∷ us) seen (reads, fresh, p) e = elim (Bool-cases (k == key)) [
  | inl same ↦
      subst
        (λ z.
          lines_with z (missing_lines ((k, w) ∷ us) seen)
          ≡ (if contains z seen then [] else setting z v ∷ []))
        ((==_iff k key).0 same)
        (subst
          (λ x.
            lines_with k (missing_lines ((k, w) ∷ us) seen)
            ≡ (if contains k seen then [] else setting k x ∷ []))
          (given (k == key) same e) (lines_with-first k w us seen (reads, fresh, p)))
  | inr apart ↦ elim (Bool-cases (contains k seen)) [
    | inl t ↦ rw t (lines_with-missing key v us seen p (rest (k == key) apart e))
    | inr f ↦ rw (f, reads w, apart) (lines_with-missing key v us seen p (rest (k == key) apart e))
  ]
]
  where
    given : (b : Bool) → b ≡ true → (if b then some w else value_of us key) ≡ some v → w ≡ v
    given true t e = some-injective w v e
    given false t e = cc

    rest :
        (b : Bool)
        → b ≡ false
        → (if b then some w else value_of us key) ≡ some v
        → value_of us key ≡ some v
    rest true f e = cc
    rest false f e = e

-- A line that is written with its first update.
written_new :
    (key v k w : Text) (seen rest : List Text) (b : Bool)
    → (k == key) ≡ b
    → key_of (setting k w) ≡ k
    → contains k seen ≡ false
    → (b ≡ true → w ≡ v)
    → lines_with key rest ≡ (if contains key (k ∷ seen) then [] else setting key v ∷ [])
    → lines_with key (setting k w ∷ rest) ≡ (if contains key seen then [] else setting key v ∷ [])
unfolding lines_with contains
written_new key v k w seen rest false d reads f same h = rw (reads, d) (h ∙ rw d refl)
written_new key v k w seen rest true d reads f same h =
    subst
      (λ z. lines_with z (setting k w ∷ rest) ≡ (if contains z seen then [] else setting z v ∷ []))
      ((==_iff k key).0 d)
      (rw (reads, ==_refl k, f)
        (λ i.
          setting k (same refl i)
          ∷ subst (λ z. lines_with z rest ≡ []) (sym ((==_iff k key).0 d)) (h ∙ rw d refl) i))

pub lines_with-update :
    (updates : Values) (key v : Text)
    → IsPlain updates
    → value_of updates key ≡ some v
    → (lines seen : List Text)
    → lines_with key (update_lines updates seen lines)
      ≡ (if contains key seen then [] else setting key v ∷ [])
unfolding update_lines lines_with contains
lines_with-update updates key v p h [] seen = lines_with-missing key v updates seen p h
lines_with-update updates key v p h (line ∷ lines) seen =
    elim (Option-cases (value_of updates (key_of line))) [
      | inl e ↦
          rw
            (
              update_line-other updates seen line e,
              ==_ne (key_of line) key (λ same. cc (ap (value_of updates) same, e, h)),
            )
            (lines_with-update updates key v p h lines seen)
      | inr (w, e) ↦ elim (Bool-cases (contains (key_of line) seen)) [
        | inl t ↦
            rw (update_line-seen updates seen line w e t)
              (lines_with-update updates key v p h lines seen)
        | inr f ↦
            subst
              (λ r.
                lines_with key (r.0 ++ update_lines updates r.1 lines)
                ≡ (if contains key seen then [] else setting key v ∷ []))
              (sym (update_line-new updates seen line w e f))
              (written_new key v (key_of line) w seen _ (key_of line == key) refl
                (key_of-setting updates (key_of line) w p e w) f
                (λ t.
                  some-injective w v
                    (sym e ∙ ap (value_of updates) ((==_iff (key_of line) key).0 t) ∙ h))
                (lines_with-update updates key v p h lines (key_of line ∷ seen)))
      ]
    ]
