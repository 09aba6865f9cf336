-- ===== src/Health/Encode.antt =====
-- The value that `_save_state` of deploy/bot/healthcheck.py dumps; its keys are sorted.
use proxy_gateway_plus.Prelude.{String, Option, none, some, List, [], ◌∷◌, map}
use proxy_gateway_plus.Prelude.Json.{
  pos, Json, null, int, float, str, arr, obj, of_list, Fields, end, field,
}
use proxy_gateway_plus.Health.{Kind, problem, recovery, resolved, Pending, Row, State}

unfoldable pub encode_kind : Kind → Json
encode_kind problem = str "problem"
encode_kind recovery = str "recovery"
encode_kind resolved = str "resolved"

unfoldable pub encode_problems : List String → Json
encode_problems ps = arr (of_list (map str ps))

unfoldable pub encode_delivered : Option (List String) → Json
encode_delivered none = null
encode_delivered (some ps) = encode_problems ps

unfoldable pub encode_pending : Option Pending → Json
encode_pending none = null
encode_pending (some p) = obj (
    field "attempts" (int (pos p.attempts)) (
      field "kind" (encode_kind p.kind) (
        field "next_attempt" (float (pos p.next_attempt))
          (field "problems" (encode_problems p.problems) end))))

unfoldable pub encode_row : Row → Json
encode_row row = obj (
    field "delivered" (encode_delivered row.delivered) (
      field "observed" (encode_problems row.observed)
        (field "pending" (encode_pending row.pending) end)))

unfoldable pub encode_rows : List (String × Row) → Fields
encode_rows [] = end
encode_rows ((k, row) ∷ rows) = field k (encode_row row) (encode_rows rows)

-- The value that `_save_state` dumps.
unfoldable pub encode_state : State → Json
encode_state s = obj (
    field "problems" (encode_problems s.problems)
      (field "recipients" (obj (encode_rows s.recipients)) (field "schema" (int (pos 2)) end)))
