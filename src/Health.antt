-- ===== src/Health.antt =====
-- deploy/bot/healthcheck.py: the notification state of the health check, and one observation.
pub mod Message
pub mod Decode
pub mod Run
pub mod Observation
pub mod Retry
pub mod Storable
pub mod Encode
pub mod RoundTrip
pub mod Trace
pub mod Delivery
pub mod Quiet
pub mod Decoded
mod Tests
use Prim.Native.Nat.{min}
use Prim.Native.String.{◌++◌}
use proxy_gateway_plus.Prelude.{
  ℕ, zero, suc, ◌+◌, ◌-◌, ◌*◌, ◌/◌, ◌%◌, ◌^◌, String, Bool, true, false, not, ◌&&◌, Option, none,
  some, List, [], ◌∷◌, map, all, ltb, if◌then◌else◌, ◌==◌, List_eq, Option_eq, String_eq,
}

-- The kinds of a pending notification.
pub data Kind : Type 0 where
  problem recovery resolved : Kind

pub record Pending : Type 0 where
  pub kind : Kind
  pub problems : List String
  pub attempts : ℕ
  pub next_attempt : ℕ

-- `delivered` is `none` where it is unknown whether the last alarm arrived.
pub record Row : Type 0 where
  pub observed : List String
  pub delivered : Option (List String)
  pub pending : Option Pending

pub record State : Type 0 where
  pub problems : List String
  pub recipients : List (String × Row)

abbrev pub retry_base : ℕ
retry_base = 600

abbrev pub retry_max : ℕ
retry_max = 3600

abbrev pub is_empty {ℓ} : {A : Type ℓ} → List A → Bool
is_empty [] = true
is_empty (_ ∷ _) = false

unfoldable pub new_recipient : List String → Bool → Row
new_recipient observed unknown = record {
  observed = observed;
  delivered = if unknown then none else some [];
  pending = none;
}

digit : ℕ → String
digit zero = "0"
digit (suc zero) = "1"
digit (suc (suc zero)) = "2"
digit (suc (suc (suc zero))) = "3"
digit (suc (suc (suc (suc zero)))) = "4"
digit (suc (suc (suc (suc (suc zero))))) = "5"
digit (suc (suc (suc (suc (suc (suc zero)))))) = "6"
digit (suc (suc (suc (suc (suc (suc (suc zero))))))) = "7"
digit (suc (suc (suc (suc (suc (suc (suc (suc zero)))))))) = "8"
digit _ = "9"

decimal_fuel : ℕ → ℕ → String
decimal_fuel zero n = digit n
decimal_fuel (suc f) n =
    let front = decimal_fuel f (n / 10) in if ltb n 10 then digit n else ◌++◌ front (digit (n % 10))

-- `str(uid)`; the fuel is the number itself, which is more than its digits.
unfoldable pub decimal : ℕ → String
unfolding decimal_fuel digit
decimal n = decimal_fuel n n

-- What `_observe` queues when the problems change.
next_kind : List String → Option (List String) → List String → Option (Kind × List String)
next_kind previous delivered problems =
    if not (is_empty problems)
    then (if delivered == some problems then none else some (problem, problems))
    else if not (is_empty previous) && not (delivered == some previous)
    then some (resolved, previous)
    else elim delivered [ none ↦ none | some d ↦ if is_empty d then none else some (recovery, []) ]

queue : ℕ → Option (Kind × List String) → Option Pending
queue now none = none
queue now (some (k, ps)) =
    some (record { kind = k; problems = ps; attempts = 0; next_attempt = now })

replaced : Row → List String → ℕ → Row
unfolding next_kind queue
replaced row problems now = record row {
  observed = problems;
  pending = queue now (next_kind row.observed row.delivered problems);
}

-- A repeated observation only keeps a waiting retry from moving out of reach.
observe_pending : Option Pending → Row → List String → ℕ → Row
unfolding replaced
observe_pending none row problems now = replaced row problems now
observe_pending (some p) row problems now =
    if row.observed == problems
    then record row {
      pending = some (record p { next_attempt = min p.next_attempt (now + retry_max) });
    }
    else replaced row problems now

unfoldable pub observe : Row → List String → ℕ → Row
unfolding observe_pending
observe row problems now = observe_pending row.pending row problems now

-- The test that `_decode_state` makes on each stored row.
consistent_pending : Option Pending → List String → Option (List String) → Bool
consistent_pending none observed delivered = delivered == some observed
consistent_pending (some p) observed delivered = elim p.kind [
  | problem ↦
      not (is_empty observed) && (p.problems == observed) && not (delivered == some observed)
  | recovery ↦
      is_empty observed
      && is_empty p.problems
      && elim delivered [ none ↦ false | some d ↦ not (is_empty d) ]
  | resolved ↦ is_empty observed && not (is_empty p.problems) && not (delivered == some p.problems)
]

unfoldable pub consistent : Row → Bool
unfolding consistent_pending
consistent row = consistent_pending row.pending row.observed row.delivered

abbrev has_no_pending : Row → Bool
has_no_pending row = elim row.pending [ none ↦ true | some _ ↦ false ]

unfoldable pub legacy_problems : List (String × Row) → Option (List String)
legacy_problems [] = none
legacy_problems ((k, row) ∷ rest) =
    if all (λ r. has_no_pending r.1) ((k, row) ∷ rest)
      && all (λ r. r.1.delivered == row.delivered) ((k, row) ∷ rest)
    then row.delivered
    else none

-- The list that an older release reads: written once all recipients agree.
unfoldable pub update_legacy_view : State → State
unfolding legacy_problems
update_legacy_view s = elim (legacy_problems s.recipients) [
  | none ↦ s
  | some ps ↦ record s { problems = ps }
]
