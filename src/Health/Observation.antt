-- ===== src/Health/Observation.antt =====
-- What `_observe` of deploy/bot/healthcheck.py keeps and queues.
use proxy_gateway_plus.Prelude.{
  ℕ, ◌≡◌, ◌≢◌, String, true, Option, none, some, List, [], ◌∷◌, arith, ◌==◌, ==_iff, ==_refl,
  List_eq, String_eq, Option_eq, Bool-cases, inl, inr, ap, ◌∙◌, subst, sym,
}
use proxy_gateway_plus.Health.{
  Pending, Row, State, observe, consistent, observe_pending, replaced, next_kind, queue,
  update_legacy_view, consistent_pending,
}

-- A changed observation leaves a row that the decoder accepts, unless a row with nothing observed
-- and an unknown receipt is told again that nothing is wrong.
consistent-replaced :
    (row : Row) (problems : List String) (now : ℕ)
    → (row.delivered ≡ none → row.observed ≡ problems → problems ≢ [])
    → consistent (replaced row problems now) ≡ true
unfolding replaced consistent next_kind queue consistent_pending
consistent-replaced row [] now h =
    ground (arith, ==_iff row.delivered (some row.observed), ==_iff row.delivered (some []), h)
consistent-replaced row (x ∷ xs) now h =
    ground (arith, ==_iff row.delivered (some (x ∷ xs)), ==_refl (x ∷ xs))

-- A row of the old format, with a problem observed and no known receipt, is repaired.
pub consistent-observe_unknown :
    (row : Row) (problems : List String) (now : ℕ)
    → row.pending ≡ none
    → row.observed ≢ []
    → consistent (observe row problems now) ≡ true
unfolding observe observe_pending
consistent-observe_unknown row problems now idle some_problem =
    subst (λ o. consistent (observe_pending o row problems now) ≡ true) (sym idle)
      (consistent-replaced row problems now (λ _ same none_now. some_problem (same ∙ none_now)))

observe_pending-consistent :
    (pending : Option Pending) (row : Row) (problems : List String) (now : ℕ)
    → consistent_pending pending row.observed row.delivered ≡ true
    → consistent (observe_pending pending row problems now) ≡ true
unfolding observe_pending consistent_pending consistent
observe_pending-consistent none row problems now h =
    consistent-replaced row problems now
      (λ unknown _. absurd (ground (arith, ==_iff row.delivered (some row.observed))))
observe_pending-consistent (some p) row problems now h =
    elim (Bool-cases (row.observed == problems)) [
      | inl same ↦ rw same h
      | inr changed ↦ rw changed (
          consistent-replaced row problems now
            (λ _ same. absurd (ground (arith, ==_iff row.observed problems))))
    ]

-- `observe` keeps the test of the decoder, whatever the stored row is waiting for.
pub consistent-observe :
    (row : Row) (problems : List String) (now : ℕ)
    → consistent row ≡ true
    → consistent (observe row problems now) ≡ true
unfolding observe consistent
consistent-observe row problems now h = observe_pending-consistent row.pending row problems now h

-- The rewritten list for older releases leaves the rows as they are.
pub update_legacy_view-recipients : (s : State) → (update_legacy_view s).recipients ≡ s.recipients
unfolding update_legacy_view
update_legacy_view-recipients s = ground arith

replaced_quiet :
    (row : Row) (now : ℕ)
    → row.delivered ≡ some row.observed
    → row.pending ≡ none
    → replaced row row.observed now ≡ row
unfolding replaced next_kind queue
replaced_quiet row now told idle = rw (told, idle) (ground (arith, ==_refl (some row.observed)))

-- Told the same problems again, a row with a confirmed receipt of them stays as it is.
pub observe_quiet :
    (row : Row) (now : ℕ)
    → row.delivered ≡ some row.observed
    → row.pending ≡ none
    → observe row row.observed now ≡ row
unfolding observe observe_pending
observe_quiet row now told idle =
    ap (λ p. observe_pending p row row.observed now) idle ∙ replaced_quiet row now told idle
