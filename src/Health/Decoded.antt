-- ===== src/Health/Decoded.antt =====
-- What `_decode_state` of deploy/bot/healthcheck.py accepts is fit to be written and read again.
use Prim.Native.String
use proxy_gateway_plus.Prelude.{
  ℕ, ◌≤◌, ◌≡◌, refl, String, Bool, true, false, not, Option, none, some, List, [], ◌∷◌, arith,
  Bool-cases, inl, inr, map, ap, option_beq, list_beq, String_eq, ltb, length, ok, map_result,
  if-holds, Ensures, Ensures-bind, Ensures-guard, Ensures-eq, Ensures-weaken, Ensures-any,
  Ensures-map_result, leb, contains,
}
use proxy_gateway_plus.Prelude.Json.{
  pos, Json, null, int, str, arr, obj, to_list, get, keys, Fields,
}
use proxy_gateway_plus.Health.{Pending, Row, State, decimal, consistent, new_recipient, is_empty}
use proxy_gateway_plus.Health.Decode.{
  problem_text, has_row_keys, row_fields, checked_row, invalid_recipient, inconsistent_state,
  is_schema, is_legacy, legacy_rows, unsupported_schema, unknown_legacy_state, problem_list,
  decode_delivered, decode_pending, pending_fields, attempts_of, decode_row, stored_or_new,
  decode_recipient, decode_legacy, decode_current, decode_state, get_or_null, kind_of, timestamp,
}
use proxy_gateway_plus.Health.Storable.{
  Fits, FitsIfKnown, PendingFits, Storable, Rows, Readable, AllReadable, row_keys,
}
use proxy_gateway_plus.Health.Delivery.{Loaded, Reloads, run-Reloads}
use proxy_gateway_plus.Health.RoundTrip.{Distinct}
use proxy_gateway_plus.Health.Run.{Reply, run}
use proxy_gateway_plus.Health.Trace.{EverySaved}

problem_text-fits : (j : Json) → Ensures (λ s. String.count s ≤ 16384) (problem_text j)
unfolding problem_text
problem_text-fits (str t) = elim (Bool-cases (ltb 16384 (String.count t))) [
  | inl long ↦ rw long tt
  | inr short ↦ rw short (ground arith)
]
problem_text-fits _ = tt

problem_list-Fits : (j : Json) → Ensures Fits (problem_list j)
unfolding problem_list
problem_list-Fits (arr xs) = elim (Bool-cases (ltb 128 (length (to_list xs)))) [
  | inl many ↦ rw many tt
  | inr few ↦ rw few (
      Ensures-weaken _ Fits (map_result problem_text (to_list xs)) (λ ps h. (ground arith, h.1))
        (Ensures-map_result (λ s. String.count s ≤ 16384) problem_text (to_list xs)
          problem_text-fits))
]
problem_list-Fits _ = tt

decode_delivered-fits : (j : Json) → Ensures FitsIfKnown (decode_delivered j)
unfolding decode_delivered
decode_delivered-fits null = tt
decode_delivered-fits j =
    Ensures-bind Fits FitsIfKnown (problem_list _) _ (problem_list-Fits _) (λ ps h. h)

attempts_of-le : (j : Json) → Ensures (λ n. n ≤ 4) (attempts_of j)
unfolding attempts_of
attempts_of-le (int (pos m)) = elim (Bool-cases (leb m 4)) [
  | inl few ↦ rw few (ground arith)
  | inr many ↦ rw many tt
]
attempts_of-le _ = tt

pending_fields-fits : (fs : Fields) → Ensures (λ p. PendingFits (some p)) (pending_fields fs)
unfolding pending_fields
pending_fields-fits fs =
    Ensures-bind (λ _. Unit {0}) Good (kind_of (get_or_null fs "kind")) _ (Ensures-any _)
      (λ k _.
        Ensures-bind (λ n. n ≤ 4) Good (attempts_of (get_or_null fs "attempts")) _
          (attempts_of-le _)
          (λ a few.
            Ensures-bind Fits Good (problem_list (get_or_null fs "problems")) _
              (problem_list-Fits _)
              (λ ps fits.
                Ensures-bind (λ _. Unit {0}) Good (timestamp (get_or_null fs "next_attempt")) _
                  (Ensures-any _) (λ t _. (fits, few)))))
  where
    Good : Pending → Type 0
    Good p = PendingFits (some p)

decode_pending-fits : (j : Json) → Ensures PendingFits (decode_pending j)
unfolding decode_pending
decode_pending-fits null = tt
decode_pending-fits (obj fs) =
    Ensures-bind (λ p. PendingFits (some p)) PendingFits (pending_fields fs) _
      (pending_fields-fits fs) (λ p h. h)
decode_pending-fits _ = tt

checked_row-Storable :
    (row : Row)
    → Fits row.observed
    → FitsIfKnown row.delivered
    → PendingFits row.pending
    → Ensures Storable (checked_row row)
unfolding checked_row
checked_row-Storable row o d p =
    Ensures-guard Storable (consistent row) inconsistent_state (ok row)
      (λ same. record { observed_fits = o; delivered_fits = d; pending_fits = p; agrees = same })

-- Every row that the decoder accepts is one that can be written and read again.
pub decode_row-Storable : (j : Json) → Ensures Storable (decode_row j)
unfolding decode_row row_fields
decode_row-Storable (obj fs) =
    Ensures-guard Storable (has_row_keys fs) invalid_recipient (row_fields fs) (λ _.
      Ensures-bind Fits Storable (problem_list (get_or_null fs "observed")) _ (problem_list-Fits _)
        (λ o ho.
          Ensures-bind FitsIfKnown Storable (decode_delivered (get_or_null fs "delivered")) _
            (decode_delivered-fits _)
            (λ d hd.
              Ensures-bind PendingFits Storable (decode_pending (get_or_null fs "pending")) _
                (decode_pending-fits _) (λ p hp. checked_row-Storable _ ho hd hp))))
decode_row-Storable _ = tt

Storable-Readable : (row : Row) → Storable row → Readable row
Storable-Readable row h = record {
  observed_fits = h.observed_fits;
  delivered_fits = h.delivered_fits;
  pending_fits = h.pending_fits;
  agrees = inl h.agrees;
}

fresh-consistent : consistent (new_recipient [] false) ≡ true
unfolding consistent new_recipient option_beq list_beq
fresh-consistent = refl

new_recipient-Readable :
    (ps : List String) → Fits ps → Readable (new_recipient ps (not (is_empty ps)))
unfolding new_recipient
new_recipient-Readable [] h = record {
  observed_fits = h;
  delivered_fits = h;
  pending_fits = tt;
  agrees = inl fresh-consistent;
}
new_recipient-Readable (p ∷ ps) h = record {
  observed_fits = h;
  delivered_fits = tt;
  pending_fits = tt;
  agrees = inr (refl, refl, (λ e. cc));
}

-- The key is the recipient's, and the row can be read.
abbrev RowOf : ℕ → String × Row → Type 0
RowOf uid r = (r.0 ≡ decimal uid) × Readable r.1

stored_or_new-RowOf : (uid : ℕ) (o : Option Json) → Ensures (RowOf uid) (stored_or_new uid o)
unfolding stored_or_new new_recipient
stored_or_new-RowOf uid none = (refl, new_recipient-Readable [] (omega arith))
stored_or_new-RowOf uid (some j) =
    Ensures-bind Storable (RowOf uid) (decode_row j) _ (decode_row-Storable j)
      (λ row h. (refl, Storable-Readable row h))

-- The rows of the recipients, in order.
abbrev RowsOf : List ℕ → Rows → Type 0
RowsOf uids rows = (row_keys rows ≡ map decimal uids) × AllReadable rows

recipients-RowsOf :
    (fs : Fields) (uids : List ℕ) → Ensures (RowsOf uids) (map_result (decode_recipient fs) uids)
unfolding map_result decode_recipient
recipients-RowsOf fs [] = (refl, tt)
recipients-RowsOf fs (uid ∷ uids) =
    Ensures-bind (RowOf uid) (RowsOf (uid ∷ uids)) (stored_or_new uid (get fs (decimal uid))) _
      (stored_or_new-RowOf uid (get fs (decimal uid)))
      (λ r h.
        Ensures-bind (RowsOf uids) (RowsOf (uid ∷ uids)) (map_result (decode_recipient fs) uids) _
          (recipients-RowsOf fs uids) (λ rs hs. ((λ i. h.0 i ∷ hs.0 i), (h.1, hs.1))))

legacy-RowsOf :
    (ps : List String) (uids : List ℕ)
    → Fits ps
    → RowsOf uids (map (λ uid. (decimal uid, new_recipient ps (not (is_empty ps)))) uids)
legacy-RowsOf ps [] h = (refl, tt)
legacy-RowsOf ps (uid ∷ uids) h =
    let (same, fit) = legacy-RowsOf ps uids h in
    (ap (λ ks. decimal uid ∷ ks) same, (new_recipient-Readable ps h, fit))

decode_legacy-Loaded : (fs : Fields) (uids : List ℕ) → Ensures (Loaded uids) (decode_legacy fs uids)
unfolding decode_legacy legacy_rows
decode_legacy-Loaded fs uids =
    Ensures-bind Fits (Loaded uids) (problem_list (get_or_null fs "problems")) (legacy_rows uids)
      (problem_list-Fits _)
      (λ ps h.
        let (same, fit) = legacy-RowsOf ps uids h in
        record { keyed = same; listed = h; readable = fit })

decode_current-Loaded :
    (fs : Fields) (j : Json) (uids : List ℕ) → Ensures (Loaded uids) (decode_current fs j uids)
unfolding decode_current
decode_current-Loaded fs (obj rows) uids =
    Ensures-bind Fits (Loaded uids) (problem_list (get_or_null fs "problems")) _
      (problem_list-Fits _)
      (λ ps h.
        Ensures-bind (RowsOf uids) (Loaded uids) (map_result (decode_recipient rows) uids) _
          (recipients-RowsOf rows uids)
          (λ rs hs. record { keyed = hs.0; listed = h; readable = hs.1 }))
decode_current-Loaded fs _ uids = tt

-- What the decoder accepts has one row for each recipient, and a run can start from it: each row
-- agrees with itself, or stands for an alarm of the old format that may not have arrived.
pub decode_state-Loaded : (j : Json) (uids : List ℕ) → Ensures (Loaded uids) (decode_state j uids)
unfolding decode_state
decode_state-Loaded (obj fs) uids =
    if-holds (Ensures (Loaded uids)) (contains "schema" (keys fs)) _ _
      (Ensures-guard (Loaded uids) (is_schema (get_or_null fs "schema")) unsupported_schema
        (decode_current fs (get_or_null fs "recipients") uids)
        (λ _. decode_current-Loaded fs _ uids))
      (Ensures-guard (Loaded uids) (is_legacy fs) unknown_legacy_state (decode_legacy fs uids)
        (λ _. decode_legacy-Loaded fs uids))
decode_state-Loaded _ uids = tt

-- A run on a state that the decoder accepted, whatever the file held, writes only states that the
-- decoder reads back as they are, where the recipients' keys are distinct and the problems fit.
pub decoded-run-Reloads :
    (post : ℕ → List ℕ → Reply) (save : State → Bool) (now : ℕ) (uids : List ℕ)
    (problems : List String) (j : Json) (value : State)
    → Distinct (map decimal uids)
    → Fits problems
    → decode_state j uids ≡ ok value
    → EverySaved (Reloads uids) (run post save uids problems now value).0
decoded-run-Reloads post save now uids problems j value d fits e =
    run-Reloads post save now uids problems value d fits
      (Ensures-eq (Loaded uids) (decode_state j uids) value (decode_state-Loaded j uids) e)
