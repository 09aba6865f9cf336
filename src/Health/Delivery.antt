-- ===== src/Health/Delivery.antt =====
-- What the trace of `_run` in deploy/bot/healthcheck.py promises about sends and writes.
use proxy_gateway_plus.Prelude.{
  ℕ, ◌≡◌, String, Bool, false, Option, none, some, List, [], ◌∷◌, List_eq, String_eq, Option_eq,
  map, ok, ◌∙◌, if-holds,
}
use proxy_gateway_plus.Health.{Pending, Row, State, decimal, update_legacy_view, legacy_problems}
use proxy_gateway_plus.Health.Decode.{decode_state}
use proxy_gateway_plus.Health.Encode.{encode_state}
use proxy_gateway_plus.Health.RoundTrip.{Distinct, decode_state-encode}
use proxy_gateway_plus.Health.Run.{
  Reply, Event, saved, sent, Outcome, notify, settled, due, find_row, observe_all, run,
}
use proxy_gateway_plus.Health.Trace.{Durable, EverySaved, due-pending, Carried, notify_all_carries}
use proxy_gateway_plus.Health.Storable.{
  Fits, FitsIfKnown, Rows, AllStorable, AllReadable, row_keys, settle-Storable, find_row-Storable,
  put_row-Storable, row_keys-put_row, observe_rows-Storable, row_keys-observe,
}

module _ (post : ℕ → List ℕ → Reply) (save : State → Bool) (now : ℕ) where
  -- Every notification that leaves was written down first, under its recipient, and is due.
  pub Durable-run :
      (uids : List ℕ) (problems : List String) (value : State)
      → Durable now value (run post save uids problems now value).0
  unfolding run
  Durable-run uids problems value =
      if-holds (λ (o : Outcome). Durable now value o.0) (save value') _ _
        (notify_all_carries post save now {Inv = λ _. Unit} durable uids value' false tt) tt
    where
      value' : State
      value' = observe_all post save problems now value

      durable : Carried post save now (λ _. Unit) (Durable now)
      durable = record {
        stops = λ v. tt;
        keeps = λ v uid row p _ _ _. tt;
        breaks = λ v uid row p _ found ready. ((row, found, ready), tt);
        goes_on = λ v uid row p rest _ found ready h. ((row, found, ready), h);
      }

-- What every written state of a run keeps: one row for each recipient, each fit to be read again.
pub record Loadable (uids : List ℕ) (s : State) : Type 0 where
  pub keyed : row_keys s.recipients ≡ map decimal uids
  pub listed : Fits s.problems
  pub stored : AllStorable s.recipients

-- What a run starts from.
pub record Loaded (uids : List ℕ) (s : State) : Type 0 where
  pub keyed : row_keys s.recipients ≡ map decimal uids
  pub listed : Fits s.problems
  pub readable : AllReadable s.recipients

legacy_problems-fits : (rows : Rows) → AllStorable rows → FitsIfKnown (legacy_problems rows)
unfolding legacy_problems
legacy_problems-fits [] _ = tt
legacy_problems-fits ((k, row) ∷ rows) (h, hs) =
    if-holds FitsIfKnown _ row.delivered none h.delivered_fits tt

update_legacy_view-Loadable :
    (uids : List ℕ) (s : State) → Loadable uids s → Loadable uids (update_legacy_view s)
unfolding update_legacy_view
update_legacy_view-Loadable uids s h =
    go (legacy_problems s.recipients) (legacy_problems-fits s.recipients h.stored)
  where
    go :
        (o : Option (List String))
        → FitsIfKnown o
        → Loadable uids (elim o [ none ↦ s | some ps ↦ record s { problems = ps } ])
    go none _ = h
    go (some ps) k = record { keyed = h.keyed; listed = k; stored = h.stored }

-- The state is read back, for these recipients, as it was written.
abbrev pub Reloads : List ℕ → State → Type 0
Reloads uids s = decode_state (encode_state s) uids ≡ ok s

module _ (post : ℕ → List ℕ → Reply) (save : State → Bool) (now : ℕ) (uids : List ℕ) where
  settled-Loadable :
      (value : State) (uid : ℕ) (row : Row) (p : Pending)
      → Loadable uids value
      → find_row (decimal uid) value.recipients ≡ some row
      → due now row ≡ some p
      → Loadable uids (settled post save now uid p row value)
  unfolding settled
  settled-Loadable value uid row p h found ready = update_legacy_view-Loadable uids _ (record {
    keyed = row_keys-put_row (decimal uid) _ value.recipients ∙ h.keyed;
    listed = h.listed;
    stored =
        put_row-Storable (decimal uid) _ value.recipients
          (settle-Storable now p (notify post save uid p) row (due-pending now row p ready).0
            (find_row-Storable (decimal uid) value.recipients row h.stored found))
          h.stored;
  })

  observe_all-Loadable :
      (problems : List String) (value : State)
      → Fits problems
      → Loaded uids value
      → Loadable uids (observe_all post save problems now value)
  unfolding observe_all
  observe_all-Loadable problems value fits h = update_legacy_view-Loadable uids _ (record {
    keyed = row_keys-observe problems now value.recipients ∙ h.keyed;
    listed = h.listed;
    stored = observe_rows-Storable problems now value.recipients fits h.readable;
  })

  carried_Loadable : Carried post save now (Loadable uids) (λ _ t. EverySaved (Loadable uids) t)
  carried_Loadable = record {
    stops = λ v. tt;
    keeps = settled-Loadable;
    breaks = λ v uid row p inv found ready. tt;
    goes_on =
        λ v uid row p rest inv found ready h. (settled-Loadable v uid row p inv found ready, h);
  }

  -- Every state that a run writes has one row for each recipient and is fit to be read again.
  pub run-Loadable :
      (problems : List String) (value : State)
      → Fits problems
      → Loaded uids value
      → EverySaved (Loadable uids) (run post save uids problems now value).0
  unfolding run
  run-Loadable problems value fits h =
      let start = observe_all-Loadable problems value fits h in
      if-holds (λ (o : Outcome). EverySaved (Loadable uids) o.0)
        (save (observe_all post save problems now value)) _ _
        (start, notify_all_carries post save now carried_Loadable uids _ false start) tt

  EverySaved-Reloads :
      (t : List Event)
      → Distinct (map decimal uids)
      → EverySaved (Loadable uids) t
      → EverySaved (Reloads uids) t
  EverySaved-Reloads [] d _ = tt
  EverySaved-Reloads (saved s ∷ t) d (h, hs) =
      (decode_state-encode s uids h.keyed d h.listed h.stored, EverySaved-Reloads t d hs)
  EverySaved-Reloads (sent uid p ∷ t) d h = EverySaved-Reloads t d h

  -- Every state that a run writes is read back as it was by the next one, for recipients whose
  -- keys are distinct, problems that fit and a state that is fit to be read itself.
  pub run-Reloads :
      (problems : List String) (value : State)
      → Distinct (map decimal uids)
      → Fits problems
      → Loaded uids value
      → EverySaved (Reloads uids) (run post save uids problems now value).0
  run-Reloads problems value d fits h =
      EverySaved-Reloads (run post save uids problems now value).0 d
        (run-Loadable problems value fits h)
