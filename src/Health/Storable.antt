-- ===== src/Health/Storable.antt =====
-- The rows that `_decode_state` of deploy/bot/healthcheck.py accepts, and that the run keeps so.
use Prim.Native.String
use proxy_gateway_plus.Prelude.{
  ℕ, ◌≤◌, ◌≡◌, ◌≢◌, ◌⊎◌, String, Bool, true, false, Option, none, some, List, [], ◌∷◌, arith, ◌==◌,
  ==_iff, ==_refl, List_eq, String_eq, Option_eq, All, length, Bool-cases, inl, inr, map,
  if◌then◌else◌, if-holds, subst, not, ◌&&◌, refl, ap,
}
use proxy_gateway_plus.Health.{
  Kind, problem, recovery, resolved, Pending, Row, observe, observe_pending, replaced, queue,
  next_kind, consistent, consistent_pending, is_empty,
}
use proxy_gateway_plus.Health.Observation.{consistent-observe, consistent-observe_unknown}
use proxy_gateway_plus.Health.Run.{settle, put_row, find_row}

-- A problem list that the decoder accepts.
abbrev pub Fits : List String → Type 0
Fits ps = (length ps ≤ 128) × All (λ s. String.count s ≤ 16384) ps

abbrev pub FitsIfKnown : Option (List String) → Type 0
FitsIfKnown none = Unit
FitsIfKnown (some ps) = Fits ps

abbrev pub PendingFits : Option Pending → Type 0
PendingFits none = Unit
PendingFits (some p) = Fits p.problems × (p.attempts ≤ 4)

pub record Storable (row : Row) : Type 0 where
  pub observed_fits : Fits row.observed
  pub delivered_fits : FitsIfKnown row.delivered
  pub pending_fits : PendingFits row.pending
  pub agrees : consistent row ≡ true

abbrev QueueFits : ℕ → Option (Kind × List String) → Type 0
QueueFits now q = PendingFits (queue now q)

-- A row of a file of the release before schemas, whose alarm may not have arrived.
abbrev pub Unconfirmed : Row → Type 0
Unconfirmed row = (row.pending ≡ none) × (row.delivered ≡ none) × (row.observed ≢ [])

-- A row as `_load_state` may return it.
pub record Readable (row : Row) : Type 0 where
  pub observed_fits : Fits row.observed
  pub delivered_fits : FitsIfKnown row.delivered
  pub pending_fits : PendingFits row.pending
  pub agrees : (consistent row ≡ true) ⊎ Unconfirmed row

queue-Fits :
    (previous problems : List String) (delivered : Option (List String)) (now : ℕ)
    → Fits previous
    → Fits problems
    → QueueFits now (next_kind previous delivered problems)
unfolding queue next_kind
queue-Fits previous problems delivered now h k =
    if-holds (QueueFits now) (not (is_empty problems)) _ _
      (if-holds (QueueFits now) (delivered == some problems) none (some (problem, problems)) tt
        (k, omega arith))
      (if-holds (QueueFits now) (not (is_empty previous) && not (delivered == some previous))
        (some (resolved, previous)) _ (h, omega arith) (healthy delivered))
  where
    healthy :
        (o : Option (List String))
        → QueueFits now
            (elim o [ none ↦ none | some d ↦ if is_empty d then none else some (recovery, []) ])
    healthy none = tt
    healthy (some []) = tt
    healthy (some (x ∷ d)) = omega arith

observe_pending-Fits :
    (pending : Option Pending) (row : Row) (problems : List String) (now : ℕ)
    → PendingFits pending
    → Fits row.observed
    → Fits problems
    → PendingFits (observe_pending pending row problems now).pending
unfolding observe_pending replaced
observe_pending-Fits none row problems now h o k =
    queue-Fits row.observed problems row.delivered now o k
observe_pending-Fits (some p) row problems now h o k =
    elim (Bool-cases (row.observed == problems)) [
      | inl same ↦ rw same h
      | inr changed ↦ rw changed (queue-Fits row.observed problems row.delivered now o k)
    ]

observed-observe :
    (pending : Option Pending) (row : Row) (problems : List String) (now : ℕ)
    → (observe_pending pending row problems now).observed ≡ problems
unfolding observe_pending replaced
observed-observe none row problems now = refl
observed-observe (some p) row problems now = ground (arith, ==_iff row.observed problems)

delivered-observe :
    (pending : Option Pending) (row : Row) (problems : List String) (now : ℕ)
    → (observe_pending pending row problems now).delivered ≡ row.delivered
unfolding observe_pending replaced
delivered-observe none row problems now = refl
delivered-observe (some p) row problems now = ground arith

-- An observation of problems that fit leaves a row that can be stored and read again.
pub observe-Storable :
    (row : Row) (problems : List String) (now : ℕ)
    → Readable row
    → Fits problems
    → Storable (observe row problems now)
unfolding observe
observe-Storable row problems now h k = record {
  observed_fits = rw (observed-observe row.pending row problems now) k;
  delivered_fits = rw (delivered-observe row.pending row problems now) h.delivered_fits;
  pending_fits = observe_pending-Fits row.pending row problems now h.pending_fits h.observed_fits k;
  agrees = elim h.agrees [
    | inl same ↦ unfold observe in consistent-observe row problems now same
    | inr old ↦ unfold observe in consistent-observe_unknown row problems now old.0 old.2
  ];
}

consistent-settle :
    (now : ℕ) (p : Pending) (acked : Bool) (row : Row)
    → row.pending ≡ some p
    → consistent row ≡ true
    → consistent (settle now p acked row) ≡ true
unfolding settle consistent consistent_pending
consistent-settle now p true row h k = ==_refl (some row.observed)
consistent-settle now p false row h k =
    ground (arith, ap (λ o. consistent_pending o row.observed row.delivered) h)

settle-Fits :
    (now : ℕ) (p : Pending) (acked : Bool) (row : Row)
    → Fits p.problems
    → PendingFits (settle now p acked row).pending
unfolding settle
settle-Fits now p true row h = tt
settle-Fits now p false row h = (h, omega arith)

delivered-settle :
    (now : ℕ) (p : Pending) (acked : Bool) (row : Row)
    → Storable row
    → FitsIfKnown (settle now p acked row).delivered
unfolding settle
delivered-settle now p true row h = h.observed_fits
delivered-settle now p false row h = h.delivered_fits

observed-settle :
    (now : ℕ) (p : Pending) (acked : Bool) (row : Row)
    → (settle now p acked row).observed ≡ row.observed
unfolding settle
observed-settle now p true row = refl
observed-settle now p false row = refl

-- A tried notification leaves a row that can be stored and read again.
pub settle-Storable :
    (now : ℕ) (p : Pending) (acked : Bool) (row : Row)
    → row.pending ≡ some p
    → Storable row
    → Storable (settle now p acked row)
settle-Storable now p acked row waits h = record {
  observed_fits = rw (observed-settle now p acked row) h.observed_fits;
  delivered_fits = delivered-settle now p acked row h;
  pending_fits = settle-Fits now p acked row (subst PendingFits waits h.pending_fits).0;
  agrees = consistent-settle now p acked row waits h.agrees;
}

-- The rows of a state under their keys.
abbrev pub Rows : Type 0
Rows = List (String × Row)

abbrev pub row_keys : Rows → List String
row_keys rows = map (λ r. r.0) rows

abbrev pub AllStorable : Rows → Type 0
AllStorable rows = All (λ r. Storable r.1) rows

pub find_row-Storable :
    (k : String) (rows : Rows) (row : Row)
    → AllStorable rows
    → find_row k rows ≡ some row
    → Storable row
find_row-Storable k [] row h e = cc
find_row-Storable k ((j, r) ∷ rows) row (h, hs) e = elim (Bool-cases (j == k)) [
  | inl same ↦ subst Storable (ground arith) h
  | inr other ↦ find_row-Storable k rows row hs (ground arith)
]

pub put_row-Storable :
    (k : String) (row : Row) (rows : Rows)
    → Storable row
    → AllStorable rows
    → AllStorable (put_row k row rows)
put_row-Storable k row [] h _ = tt
put_row-Storable k row ((j, r) ∷ rows) h (hr, hs) =
    if-holds AllStorable (j == k) ((j, row) ∷ rows) ((j, r) ∷ put_row k row rows) (h, hs)
      (hr, put_row-Storable k row rows h hs)

pub row_keys-put_row :
    (k : String) (row : Row) (rows : Rows) → row_keys (put_row k row rows) ≡ row_keys rows
row_keys-put_row k row [] = refl
row_keys-put_row k row ((j, r) ∷ rows) = ground (arith, row_keys-put_row k row rows)

abbrev pub AllReadable : Rows → Type 0
AllReadable rows = All (λ r. Readable r.1) rows

pub observe_rows-Storable :
    (problems : List String) (now : ℕ) (rows : Rows)
    → Fits problems
    → AllReadable rows
    → AllStorable (map (λ r. (r.0, observe r.1 problems now)) rows)
observe_rows-Storable problems now [] k _ = tt
observe_rows-Storable problems now ((j, r) ∷ rows) k (h, hs) =
    (observe-Storable r problems now h k, observe_rows-Storable problems now rows k hs)

pub row_keys-observe :
    (problems : List String) (now : ℕ) (rows : Rows)
    → row_keys (map (λ r. (r.0, observe r.1 problems now)) rows) ≡ row_keys rows
row_keys-observe problems now [] = refl
row_keys-observe problems now ((j, r) ∷ rows) =
    ap (λ ks. j ∷ ks) (row_keys-observe problems now rows)
