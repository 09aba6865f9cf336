-- ===== src/Profile/Others.antt =====
-- The loop of `retarget_platform_text` (deploy/bot/pdgprofile.py) on the lines that it is not about.
use proxy_gateway_plus.Prelude.{
  true, List, [], ◌∷◌, ◌==◌, ==_refl, ℕ_eq, List_eq, All, contains, ◌≡◌, inl, inr, refl, ap,
  Bool-cases, Option-cases, if-split,
}
use proxy_gateway_plus.Prelude.Texts.{Text}
use proxy_gateway_plus.Profile.{Values, value_of, is_set}
use proxy_gateway_plus.Profile.Resolve.{setting}
use proxy_gateway_plus.Profile.Retarget.{key_of, missing_lines, update_lines}
use proxy_gateway_plus.Profile.Updates.{
  other_lines, IsPlain, key_of-setting, update_line-other, update_line-seen, update_line-new,
}

-- An update whose key is read back and is among others.
abbrev IsCovered : Values → Text × Text → Type 0
IsCovered updates (key, v) = (key_of (setting key v) ≡ key) × (is_set (value_of updates key) ≡ true)

All-IsCovered :
    (update : Text × Text) (updates us : Values)
    → All (IsCovered updates) us
    → All (IsCovered (update ∷ updates)) us
All-IsCovered update updates [] h = tt
All-IsCovered (k, v) updates ((key, w) ∷ us) ((reads, covered), h) = (
  (reads, if-split (λ o. is_set o ≡ true) (k == key) _ _ (λ _. refl) (λ _. covered)),
  All-IsCovered (k, v) updates us h,
)

IsCovered-each : (updates : Values) → IsPlain updates → All (IsCovered updates) updates
IsCovered-each [] p = tt
IsCovered-each ((key, v) ∷ updates) (reads, fresh, p) = (
  (reads v, rw (==_refl key) refl),
  All-IsCovered (key, v) updates updates (IsCovered-each updates p),
)

other_lines-missing :
    (updates us : Values) (seen : List Text)
    → All (IsCovered updates) us
    → other_lines updates (missing_lines us seen) ≡ []
unfolding other_lines missing_lines
other_lines-missing updates [] seen h = refl
other_lines-missing updates ((key, v) ∷ us) seen ((reads, covered), h) =
    elim (Bool-cases (contains key seen)) [
      | inl t ↦ rw t (other_lines-missing updates us seen h)
      | inr f ↦ rw (f, reads, covered) (other_lines-missing updates us seen h)
    ]

pub other_lines-update :
    (updates : Values)
    → IsPlain updates
    → (lines seen : List Text)
    → other_lines updates (update_lines updates seen lines) ≡ other_lines updates lines
unfolding update_lines other_lines
other_lines-update updates p [] seen =
    other_lines-missing updates updates seen (IsCovered-each updates p)
other_lines-update updates p (line ∷ lines) seen =
    elim (Option-cases (value_of updates (key_of line))) [
      | inl e ↦
          rw (update_line-other updates seen line e, e)
            (ap (λ r. line ∷ r) (other_lines-update updates p lines seen))
      | inr (v, e) ↦ elim (Bool-cases (contains (key_of line) seen)) [
        | inl t ↦
            rw (update_line-seen updates seen line v e t, e)
              (other_lines-update updates p lines seen)
        | inr f ↦
            rw
              (
                update_line-new updates seen line v e f,
                key_of-setting updates (key_of line) v p e v,
                e,
              )
              (other_lines-update updates p lines (key_of line ∷ seen))
      ]
    ]
