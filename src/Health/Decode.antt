-- ===== src/Health/Decode.antt =====
-- `_decode_state` of deploy/bot/healthcheck.py, on the value that the state file holds.
use Prim.Native.String
use proxy_gateway_plus.Prelude.{
  ℕ, String, Bool, false, not, ◌&&◌, Option, none, some, List, [], map, all, length, ltb, leb,
  if◌then◌else◌, ◌==◌, String_eq, ℕ_eq, contains, Result, ok, err, ◌>>=◌, ◌>>◌, guard, map_result,
}
use proxy_gateway_plus.Prelude.Json.{
  pos, Json, null, int, float, str, arr, obj, to_list, get, keys, Fields,
}
use proxy_gateway_plus.Health.{
  Kind, problem, recovery, resolved, Pending, Row, State, is_empty, new_recipient, decimal,
  consistent,
}

pub data StateError : Type 0 where
  invalid_problem_list invalid_timestamp invalid_state unknown_legacy_state : StateError
  unsupported_schema invalid_recipient invalid_pending inconsistent_state : StateError
  invalid_json : StateError

abbrev pub R {ℓ} : Type ℓ → Type ℓ
R A = Result StateError A

-- One item of a problem list: a text of at most 16384 characters.
unfoldable pub problem_text : Json → R String
problem_text (str s) = if ltb 16384 (String.count s) then err invalid_problem_list else ok s
problem_text _ = err invalid_problem_list

unfoldable pub problem_list : Json → R (List String)
unfolding problem_text map_result
problem_list (arr xs) =
    if ltb 128 (length (to_list xs))
    then err invalid_problem_list
    else map_result problem_text (to_list xs)
problem_list _ = err invalid_problem_list

-- Times are whole seconds; a negative one, a bool and what is not finite are refused.
unfoldable pub timestamp : Json → R ℕ
timestamp (int (pos n)) = ok n
timestamp (float (pos n)) = ok n
timestamp _ = err invalid_timestamp

-- `row.get(key)`, where a missing key reads as None.
abbrev pub get_or_null : Fields → String → Json
get_or_null fs k = elim (get fs k) [ none ↦ null | some v ↦ v ]

-- `pending.get("kind") not in {…}`: a list or dict there raises TypeError.
unfoldable pub kind_of : Json → R Kind
kind_of (str s) =
    if s == "problem"
    then ok problem
    else if s == "recovery"
    then ok recovery
    else if s == "resolved"
    then ok resolved
    else err invalid_pending
kind_of (arr _) = err invalid_json
kind_of (obj _) = err invalid_json
kind_of _ = err invalid_pending

unfoldable pub attempts_of : Json → R ℕ
attempts_of (int (pos n)) = if leb n 4 then ok n else err invalid_pending
attempts_of _ = err invalid_pending

unfoldable pub pending_fields : Fields → R Pending
pending_fields fs = do
  kind ← kind_of (get_or_null fs "kind")
  attempts ← attempts_of (get_or_null fs "attempts")
  problems ← problem_list (get_or_null fs "problems")
  next_attempt ← timestamp (get_or_null fs "next_attempt")
  ok (record { kind = kind; problems = problems; attempts = attempts; next_attempt = next_attempt })

unfoldable pub decode_pending : Json → R (Option Pending)
decode_pending null = ok none
decode_pending (obj fs) = do p ← pending_fields fs; ok (some p)
decode_pending _ = err invalid_pending

unfoldable pub decode_delivered : Json → R (Option (List String))
decode_delivered null = ok none
decode_delivered j = do ps ← problem_list j; ok (some ps)

unfoldable pub checked_row : Row → R Row
checked_row row = do guard (consistent row) inconsistent_state; ok row

unfoldable pub row_fields : Fields → R Row
row_fields fs = do
  observed ← problem_list (get_or_null fs "observed")
  delivered ← decode_delivered (get_or_null fs "delivered")
  pending ← decode_pending (get_or_null fs "pending")
  checked_row (record { observed = observed; delivered = delivered; pending = pending })

-- `{"observed", "delivered", "pending"} <= row.keys()`
unfoldable pub has_row_keys : Fields → Bool
has_row_keys fs =
    contains "observed" (keys fs) && contains "delivered" (keys fs) && contains "pending" (keys fs)

unfoldable pub decode_row : Json → R Row
decode_row (obj fs) = do guard (has_row_keys fs) invalid_recipient; row_fields fs
decode_row _ = err invalid_recipient

-- A recipient that the file does not know starts afresh.
unfoldable pub stored_or_new : ℕ → Option Json → R (String × Row)
stored_or_new uid none = ok (decimal uid, new_recipient [] false)
stored_or_new uid (some j) = do row ← decode_row j; ok (decimal uid, row)

unfoldable pub decode_recipient : Fields → ℕ → R (String × Row)
decode_recipient rows uid = stored_or_new uid (get rows (decimal uid))

-- `value.get("schema") != 2`, where Python's 2 equals 2.0.
unfoldable pub is_schema : Json → Bool
is_schema (int (pos n)) = n == 2
is_schema (float (pos n)) = n == 2
is_schema _ = false

-- A file of the release before schemas holds the observed problems alone.
unfoldable pub is_legacy : Fields → Bool
is_legacy fs = contains "problems" (keys fs) && all (λ k. k == "problems") (keys fs)

unfoldable pub legacy_rows : List ℕ → List String → R State
legacy_rows recipients previous = ok (record {
  problems = previous;
  recipients =
      map (λ uid. (decimal uid, new_recipient previous (not (is_empty previous)))) recipients;
})

unfoldable pub decode_legacy : Fields → List ℕ → R State
decode_legacy fs recipients = do
  previous ← problem_list (get_or_null fs "problems")
  legacy_rows recipients previous

unfoldable pub decode_current : Fields → Json → List ℕ → R State
decode_current fs (obj rows) recipients = do
  problems ← problem_list (get_or_null fs "problems")
  decoded ← map_result (decode_recipient rows) recipients
  ok (record { problems = problems; recipients = decoded })
decode_current fs _ recipients = err unsupported_schema

unfoldable pub decode_state : Json → List ℕ → R State
decode_state (obj fs) recipients =
    if contains "schema" (keys fs)
    then (do
      guard (is_schema (get_or_null fs "schema")) unsupported_schema
      decode_current fs (get_or_null fs "recipients") recipients)
    else (do guard (is_legacy fs) unknown_legacy_state; decode_legacy fs recipients)
decode_state _ recipients = err invalid_state
