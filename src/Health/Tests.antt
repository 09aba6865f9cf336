-- ===== src/Health/Tests.antt =====
-- Runs of the health check on small inputs, and the theorems at concrete inputs.
use proxy_gateway_plus.Prelude.{
  ℕ, ◌+◌, ◌≤◌, ◌≡◌, refl, Bool, true, false, none, some, List, [], ◌∷◌, ok, arith, map, map_result,
  contains, String_eq, list_beq, option_beq, List_eq, Option_eq,
}
use proxy_gateway_plus.Prelude.Json.{Json, bool, str, arr, obj, nil, cons, end, field}
use proxy_gateway_plus.Health.{
  problem, Pending, Row, State, decimal, observe, consistent, new_recipient, retry_base, retry_max,
}
use proxy_gateway_plus.Health.Run.{Reply, raised, returned, settle, run}
use proxy_gateway_plus.Health.Decode.{
  decode_state, legacy_rows, is_legacy, problem_list, decode_legacy,
}
use proxy_gateway_plus.Health.Encode.{encode_state}
use proxy_gateway_plus.Health.Observation.{consistent-observe}
use proxy_gateway_plus.Health.Storable.{Fits, Storable}
use proxy_gateway_plus.Health.Trace.{Durable, EverySaved, EverySent}
use proxy_gateway_plus.Health.RoundTrip.{decode_state-encode}
use proxy_gateway_plus.Health.Delivery.{Durable-run, Reloads}
use proxy_gateway_plus.Health.Quiet.{run_silent}
use proxy_gateway_plus.Health.Retry.{WithinReach, observe-WithinReach, settle-failed_schedule}
use proxy_gateway_plus.Health.Message.{message, utf16_length, message-le-limit}
use proxy_gateway_plus.Health.Decoded.{decoded-run-Reloads}

-- A transport that confirms every send, and one that never does.
abbrev confirms : ℕ → List ℕ → Reply
confirms uid text = returned (obj (field "ok" (bool true) end))

abbrev fails : ℕ → List ℕ → Reply
fails uid text = raised

abbrev writes : State → Bool
writes s = true

decimal_1203 : decimal 1203 ≡ "1203"
unfolding decimal
decimal_1203 = refl

-- The file of the release before schemas, with one problem.
abbrev old_file : Json
old_file = obj (field "problems" (arr (cons (str "dns") nil)) end)

old_state : State
old_state = record {
  problems = "dns" ∷ [];
  recipients = ("7", record { observed = "dns" ∷ []; delivered = none; pending = none }) ∷ [];
}

old_file_read : decode_state old_file (7 ∷ []) ≡ ok old_state
unfolding old_state decode_state decode_legacy legacy_rows is_legacy problem_list contains decimal
    new_recipient map_result
old_file_read = refl

decoded-run-Reloads_example :
    EverySaved (Reloads (7 ∷ [])) (run confirms writes (7 ∷ []) [] 1000 old_state).0
decoded-run-Reloads_example =
    decoded-run-Reloads confirms writes 1000 (7 ∷ []) [] old_file old_state (distinct_seven, tt)
      (omega arith, tt) old_file_read
  where
    distinct_seven : contains (decimal 7) [] ≡ false
    distinct_seven = unfold contains in refl

Durable-run_example :
    Durable 1000 old_state (run fails writes (7 ∷ []) ("dns" ∷ []) 1000 old_state).0
Durable-run_example = Durable-run fails writes 1000 (7 ∷ []) ("dns" ∷ []) old_state

-- One recipient that has confirmed the receipt of a problem.
abbrev told_state : State
told_state = record {
  problems = "dns" ∷ [];
  recipients =
      ("7", record { observed = "dns" ∷ []; delivered = some ("dns" ∷ []); pending = none }) ∷ [];
}

run_silent_example : EverySent (λ _ _. ⊥) (run fails writes (7 ∷ []) ("dns" ∷ []) 1000 told_state).0
run_silent_example =
    run_silent fails writes 1000 ("dns" ∷ []) (7 ∷ []) told_state ((refl, refl, refl), tt)

decode_state-encode_example : decode_state (encode_state told_state) (7 ∷ []) ≡ ok told_state
unfolding consistent option_beq list_beq
decode_state-encode_example =
    decode_state-encode told_state (7 ∷ []) seven (fresh, tt) fits (row, tt)
  where
    seven : "7" ∷ [] ≡ map decimal (7 ∷ [])
    seven = unfold decimal in refl

    fresh : contains (decimal 7) [] ≡ false
    fresh = unfold contains in refl

    fits : Fits ("dns" ∷ [])
    fits = omega arith

    row : Storable (record { observed = "dns" ∷ []; delivered = some ("dns" ∷ []); pending = none })
    row = record { observed_fits = fits; delivered_fits = fits; pending_fits = tt; agrees = refl }

abbrev waiting : Row
waiting = record {
  observed = "dns" ∷ [];
  delivered = some [];
  pending =
      some (record { kind = problem; problems = "dns" ∷ []; attempts = 4; next_attempt = 90000 });
}

observe-WithinReach_example : WithinReach 1000 (observe waiting ("dns" ∷ []) 1000).pending
observe-WithinReach_example = observe-WithinReach waiting ("dns" ∷ []) 1000 (omega arith)

waiting-consistent : consistent waiting ≡ true
unfolding consistent list_beq option_beq
waiting-consistent = refl

consistent-observe_example : consistent (observe waiting [] 1000) ≡ true
consistent-observe_example = consistent-observe waiting [] 1000 waiting-consistent

abbrev third_try : Pending
third_try = record { kind = problem; problems = "dns" ∷ []; attempts = 2; next_attempt = 900 }

settle-failed_schedule_example :
    (q : Pending) × ((settle 1000 third_try false waiting).pending ≡ some q)
    × (1 ≤ q.attempts)
    × (q.attempts ≤ 4)
    × (1000 + retry_base ≤ q.next_attempt)
    × (q.next_attempt ≤ 1000 + retry_max)
settle-failed_schedule_example = settle-failed_schedule 1000 third_try waiting

message-le-limit_example : utf16_length (message third_try) ≤ 3827
message-le-limit_example = message-le-limit third_try
