-- ===== src/Health/Run.antt =====
-- `_run` of deploy/bot/healthcheck.py: the sends and the writes of one health check, in order.
use Prim.Native.Nat.{min}
use proxy_gateway_plus.Prelude.{
  ℕ, ◌+◌, ◌-◌, ◌*◌, ◌^◌, String, Bool, true, false, not, ◌||◌, Option, none, some, List, [], ◌∷◌,
  map, leb, if◌then◌else◌, ◌==◌, String_eq, Result, ok, err,
}
use proxy_gateway_plus.Prelude.Json.{Json, bool, obj, get}
use proxy_gateway_plus.Health.{
  Pending, Row, State, observe, retry_base, retry_max, decimal, update_legacy_view,
}
use proxy_gateway_plus.Health.Message.{message}

-- Seconds to wait after the given number of failed attempts.
unfoldable pub backoff : ℕ → ℕ
backoff attempts = min retry_max (retry_base * 2 ^ (attempts - 1))

unfoldable pub settle : ℕ → Pending → Bool → Row → Row
settle now p true row = record row { delivered = some row.observed; pending = none }
settle now p false row =
    let attempts = min (p.attempts + 1) 4 in
    record row {
      pending = some (record p { attempts = attempts; next_attempt = now + backoff attempts });
    }

-- The notification that is due, if any.
unfoldable pub due : ℕ → Row → Option Pending
due now row = elim row.pending [
  | none ↦ none
  | some p ↦ if leb p.next_attempt now then some p else none
]

abbrev pub find_row : String → List (String × Row) → Option Row
find_row k [] = none
find_row k ((j, row) ∷ rest) = if j == k then some row else find_row k rest

abbrev pub put_row : String → Row → List (String × Row) → List (String × Row)
put_row k row [] = []
put_row k row ((j, old) ∷ rest) = if j == k then (j, row) ∷ rest else (j, old) ∷ put_row k row rest

-- What `bot.post` does with a request to send a text to a chat.
pub data Reply : Type 0 where
  raised : Reply
  returned : Json → Reply

-- `isinstance(result, dict) and result.get("ok") is True`
is_receipt : Reply → Bool
is_receipt (returned (obj fields)) = elim (get fields "ok") [
  | none ↦ false
  | some answer ↦ elim answer [ bool b ↦ b | _ ↦ false ]
]
is_receipt _ = false

-- What a health check does to the outside, in order; `saved` is a completed `_save_state`.
pub data Event : Type 0 where
  saved : State → Event
  sent : ℕ → Pending → Event

pub data Failure : Type 0 where
  missing_recipient save_failed : Failure

abbrev pub Outcome : Type 0
Outcome = List Event × Result Failure Bool

-- `post` is the transport, and `save` tells whether writing a state returns without raising.
module _ (post : ℕ → List ℕ → Reply) (save : State → Bool) where
  unfoldable pub notify : ℕ → Pending → Bool
  unfolding is_receipt
  notify uid p = is_receipt (post uid (message p))

  unfoldable pub settled : ℕ → ℕ → Pending → Row → State → State
  unfolding settle
  settled now uid p row value = update_legacy_view (record value {
    recipients = put_row (decimal uid) (settle now p (notify uid p) row) value.recipients;
  })

  unfoldable pub notify_all : ℕ → List ℕ → State → Bool → Outcome
  notify_all now [] value failed = ([], ok failed)
  notify_all now (uid ∷ rest) value failed = elim (find_row (decimal uid) value.recipients) [
    | none ↦ ([], err missing_recipient)
    | some row ↦ elim (due now row) [
      | none ↦ notify_all now rest value failed
      | some p ↦
          let value' = settled now uid p row value in
          let (trace, result) = notify_all now rest value' (failed || not (notify uid p)) in
          if save value'
          then (sent uid p ∷ saved value' ∷ trace, result)
          else (sent uid p ∷ [], err save_failed)
    ]
  ]

  unfoldable pub observe_all : List String → ℕ → State → State
  observe_all problems now value =
      update_legacy_view
        (record value { recipients = map (λ r. (r.0, observe r.1 problems now)) value.recipients })

  -- `_run` on a loaded state; the exit code is 1 where the result is `ok true`.
  unfoldable pub run : List ℕ → List String → ℕ → State → Outcome
  unfolding observe_all notify_all
  run recipients problems now value =
      let value' = observe_all problems now value in
      let (trace, result) = notify_all now recipients value' false in
      if save value' then (saved value' ∷ trace, result) else ([], err save_failed)
