-- ===== src/Health/Trace.antt =====
-- Induction over the loop of `_run` in deploy/bot/healthcheck.py, and predicates on its trace.
use proxy_gateway_plus.Prelude.{
  ℕ, ◌≤◌, ◌≡◌, Bool, some, List, [], ◌∷◌, arith, List_eq, String_eq, Option_eq, Option-cases, inl,
  inr, not, ◌||◌, if-holds,
}
use proxy_gateway_plus.Health.{Pending, Row, State, decimal}
use proxy_gateway_plus.Health.Run.{
  Reply, Event, saved, sent, Outcome, notify, settled, due, find_row, notify_all,
}

-- Each send is of the notification that the last saved state holds for that recipient, when it is due.
abbrev pub Durable : ℕ → State → List Event → Type 0
Durable now last [] = Unit
Durable now last (saved s ∷ rest) = Durable now s rest
Durable now last (sent uid p ∷ rest) =
    ((row : Row) × (find_row (decimal uid) last.recipients ≡ some row) × (due now row ≡ some p))
    × Durable now last rest

-- Every state that is written satisfies the predicate.
abbrev pub EverySaved : (State → Type 0) → List Event → Type 0
EverySaved P [] = Unit
EverySaved P (saved s ∷ rest) = P s × EverySaved P rest
EverySaved P (sent uid p ∷ rest) = EverySaved P rest

-- Every send satisfies the predicate.
abbrev pub EverySent : (ℕ → Pending → Type 0) → List Event → Type 0
EverySent P [] = Unit
EverySent P (saved s ∷ rest) = EverySent P rest
EverySent P (sent uid p ∷ rest) = P uid p × EverySent P rest

pub due-pending :
    (now : ℕ) (row : Row) (p : Pending)
    → due now row ≡ some p
    → (row.pending ≡ some p) × (p.next_attempt ≤ now)
unfolding due
due-pending now row p h = ground arith

module _ (post : ℕ → List ℕ → Reply) (save : State → Bool) (now : ℕ) where
  -- What a trace satisfies if each send, followed by its write, carries it on.
  pub record Carried (Inv : State → Type 0) (P : State → List Event → Type 0) : Type 0 where
    pub stops : (value : State) → P value []
    pub keeps :
        (value : State) (uid : ℕ) (row : Row) (p : Pending)
        → Inv value
        → find_row (decimal uid) value.recipients ≡ some row
        → due now row ≡ some p
        → Inv (settled post save now uid p row value)
    pub breaks :
        (value : State) (uid : ℕ) (row : Row) (p : Pending)
        → Inv value
        → find_row (decimal uid) value.recipients ≡ some row
        → due now row ≡ some p
        → P value (sent uid p ∷ [])
    pub goes_on :
        (value : State) (uid : ℕ) (row : Row) (p : Pending) (rest : List Event)
        → Inv value
        → find_row (decimal uid) value.recipients ≡ some row
        → due now row ≡ some p
        → P (settled post save now uid p row value) rest
        → P value (sent uid p ∷ saved (settled post save now uid p row value) ∷ rest)

  pub notify_all_carries :
      {Inv : State → Type 0} {P : State → List Event → Type 0}
      → Carried Inv P
      → (uids : List ℕ) (value : State) (failed : Bool) → Inv value
      → P value (notify_all post save now uids value failed).0
  unfolding notify_all
  notify_all_carries c [] value failed inv = c.stops value
  notify_all_carries {P} c (uid ∷ uids) value failed inv =
      elim (Option-cases (find_row (decimal uid) value.recipients)) [
        | inl missing ↦ rw (missing, notify_all) (c.stops value)
        | inr (row, found) ↦ elim (Option-cases (due now row)) [
          | inl idle ↦ rw (found, idle, notify_all) (notify_all_carries c uids value failed inv)
          | inr (p, ready) ↦
              rw (found, ready, notify_all)
                (if-holds (λ (o : Outcome). P value o.0)
                  (save (settled post save now uid p row value)) _ _
                  (c.goes_on value uid row p _ inv found ready (
                    notify_all_carries c uids (settled post save now uid p row value)
                      (failed || not (notify post save uid p))
                      (c.keeps value uid row p inv found ready)))
                  (c.breaks value uid row p inv found ready))
        ]
      ]
