-- ===== src/Health/Quiet.antt =====
-- `_run` of deploy/bot/healthcheck.py where nothing is new.
use proxy_gateway_plus.Prelude.{
  ℕ, ◌≡◌, refl, String, Bool, false, none, some, List, [], ◌∷◌, arith, All, Bool-cases, inl, inr,
  map, if-holds, ap, ◌==◌, String_eq, ◌∙◌, subst, sym,
}
use proxy_gateway_plus.Health.{Pending, Row, State, decimal, observe}
use proxy_gateway_plus.Health.Observation.{observe_quiet, update_legacy_view-recipients}
use proxy_gateway_plus.Health.Run.{Reply, Outcome, due, find_row, observe_all, run}
use proxy_gateway_plus.Health.Storable.{Rows}
use proxy_gateway_plus.Health.Trace.{EverySent, due-pending, Carried, notify_all_carries}

-- The problems are observed, their receipt is confirmed and nothing waits.
abbrev pub Told : List String → Row → Type 0
Told problems row =
    (row.observed ≡ problems) × (row.delivered ≡ some problems) × (row.pending ≡ none)

abbrev pub AllTold : List String → Rows → Type 0
AllTold problems rows = All (λ r. Told problems r.1) rows

observe-Told :
    (problems : List String) (now : ℕ) (row : Row)
    → Told problems row
    → observe row problems now ≡ row
observe-Told problems now row (o, d, i) =
    ap (λ ps. observe row ps now) (sym o) ∙ observe_quiet row now (d ∙ ap some (sym o)) i

observe_rows-Told :
    (problems : List String) (now : ℕ) (rows : Rows)
    → AllTold problems rows
    → map (λ r. (r.0, observe r.1 problems now)) rows ≡ rows
observe_rows-Told problems now [] _ = refl
observe_rows-Told problems now ((k, row) ∷ rows) (h, hs) =
    λ i. (k, observe-Told problems now row h i) ∷ observe_rows-Told problems now rows hs i

find_row-Told :
    (problems : List String) (k : String) (rows : Rows) (row : Row)
    → AllTold problems rows
    → find_row k rows ≡ some row
    → row.pending ≡ none
find_row-Told problems k [] row h e = cc
find_row-Told problems k ((j, r) ∷ rows) row (h, hs) e = elim (Bool-cases (j == k)) [
  | inl same ↦ let e' : r ≡ row = ground arith in subst (λ (q : Row). q.pending ≡ none) e' h.2
  | inr other ↦ find_row-Told problems k rows row hs (ground arith)
]

module _ (post : ℕ → List ℕ → Reply) (save : State → Bool) (now : ℕ) (problems : List String) where
  nothing_due :
      (value : State) (uid : ℕ) (row : Row) (p : Pending)
      → AllTold problems value.recipients
      → find_row (decimal uid) value.recipients ≡ some row
      → due now row ≡ some p
      → ⊥
  nothing_due value uid row p told found ready =
      let idle = find_row-Told problems (decimal uid) value.recipients row told found in
      let waits = (due-pending now row p ready).0 in cc

  silent :
      Carried post save now (λ v. AllTold problems v.recipients) (λ _ t. EverySent (λ _ _. ⊥) t)
  silent = record {
    stops = λ v. tt;
    keeps = λ v uid row p told found ready. absurd (nothing_due v uid row p told found ready);
    breaks = λ v uid row p told found ready. absurd (nothing_due v uid row p told found ready);
    goes_on =
        λ v uid row p rest told found ready _. absurd (nothing_due v uid row p told found ready);
  }

  -- A run that finds the problems whose receipt every recipient has confirmed sends nothing.
  pub run_silent :
      (uids : List ℕ) (value : State)
      → AllTold problems value.recipients
      → EverySent (λ _ _. ⊥) (run post save uids problems now value).0
  unfolding run observe_all
  run_silent uids value told =
      if-holds (λ (o : Outcome). EverySent (λ _ _. ⊥) o.0) (save value') _ _
        (notify_all_carries post save now silent uids value' false (
          subst (AllTold problems)
            (sym (
              update_legacy_view-recipients _
              ∙ observe_rows-Told problems now value.recipients told))
            told))
        tt
    where
      value' : State
      value' = observe_all post save problems now value
