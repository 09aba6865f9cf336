-- ===== src/Health/Retry.antt =====
-- The retry schedule of `_run` in deploy/bot/healthcheck.py.
use Prim.Native.Nat.{min}
use proxy_gateway_plus.Prelude.{
  ℕ, zero, suc, ◌+◌, ◌≤◌, ◌≡◌, refl, String, false, Option, none, some, List, arith, ◌==◌, List_eq,
  String_eq, Bool-cases, inl, inr,
}
use proxy_gateway_plus.Health.{
  Kind, Pending, Row, observe, observe_pending, replaced, queue, next_kind, retry_base, retry_max,
}
use proxy_gateway_plus.Health.Run.{backoff, settle}

abbrev pub WithinReach : ℕ → Option Pending → Type 0
WithinReach now none = Unit
WithinReach now (some p) = (p.attempts ≤ 4) × (p.next_attempt ≤ now + retry_max)

abbrev pub AttemptsBounded : Option Pending → Type 0
AttemptsBounded none = Unit
AttemptsBounded (some p) = p.attempts ≤ 4

backoff_bounds : (a : ℕ) → 1 ≤ a → a ≤ 4 → (retry_base ≤ backoff a) × (backoff a ≤ retry_max)
unfolding backoff
backoff_bounds zero l h = absurd (omega arith)
backoff_bounds (suc zero) l h = omega arith
backoff_bounds (suc (suc zero)) l h = omega arith
backoff_bounds (suc (suc (suc zero))) l h = omega arith
backoff_bounds (suc (suc (suc (suc zero)))) l h = omega arith
backoff_bounds (suc (suc (suc (suc (suc a))))) l h = absurd (omega arith)

queue-WithinReach :
    (now : ℕ) (row : Row) (problems : List String)
    → WithinReach now (replaced row problems now).pending
unfolding replaced queue
queue-WithinReach now row problems = go (next_kind row.observed row.delivered problems)
  where
    go : (q : Option (Kind × List String)) → WithinReach now (queue now q)
    go none = tt
    go (some (k, ps)) = omega arith

observe_pending-WithinReach :
    (pending : Option Pending) (row : Row) (problems : List String) (now : ℕ)
    → AttemptsBounded pending
    → WithinReach now (observe_pending pending row problems now).pending
unfolding observe_pending
observe_pending-WithinReach none row problems now h = queue-WithinReach now row problems
observe_pending-WithinReach (some p) row problems now h =
    elim (Bool-cases (row.observed == problems)) [
      | inl same ↦ rw same (omega arith)
      | inr changed ↦ rw changed (queue-WithinReach now row problems)
    ]

-- After an observation a waiting notification is due at most an hour later, even where the stored
-- time lies further ahead because the clock was set back.
pub observe-WithinReach :
    (row : Row) (problems : List String) (now : ℕ)
    → AttemptsBounded row.pending
    → WithinReach now (observe row problems now).pending
unfolding observe
observe-WithinReach row problems now h = observe_pending-WithinReach row.pending row problems now h

-- A failed send is tried again between ten minutes and an hour later, and the count of attempts
-- stays within what the decoder accepts.
pub settle-failed_schedule :
    (now : ℕ) (p : Pending) (row : Row)
    → (q : Pending) × ((settle now p false row).pending ≡ some q)
      × (1 ≤ q.attempts)
      × (q.attempts ≤ 4)
      × (now + retry_base ≤ q.next_attempt)
      × (q.next_attempt ≤ now + retry_max)
unfolding settle
settle-failed_schedule now p row =
    (_, refl, omega arith, omega arith, omega (arith, waits), omega (arith, waits))
  where
    waits :
        (retry_base ≤ backoff (min (p.attempts + 1) 4))
        × (backoff (min (p.attempts + 1) 4) ≤ retry_max)
    waits = backoff_bounds (min (p.attempts + 1) 4) (omega arith) (omega arith)
