-- ===== src/Tx/Commit/Outside.antt =====
-- What a transaction of deploy/bot/pdgtx.py meets outside, and its loops.
use proxy_gateway_plus.Prelude.{
  ℕ, String, Bool, true, false, Option, List, [], ◌∷◌, String_eq, Option_eq,
}
use proxy_gateway_plus.Tx.{Target, Digest, Bytes}
use proxy_gateway_plus.Tx.Action.{Action, Want, active, inactive}
use proxy_gateway_plus.Tx.Observe.{Health}
use proxy_gateway_plus.Tx.Effect.{Run, ◌>>◌, pure, catch}

pub data Lock : Type 0 where
  free held unusable : Lock

-- What a deriver makes of the staged contents.
pub data Derived : Type 0 where
  produced : Bytes → Derived
  nothing refuses fails : Derived

-- The outside: what the digest, the whitelist, the lock, the derivers, the validators, systemd and
-- the network answer.
pub record Env : Type 0 where
  pub sha : Bytes → Digest
  pub resolve : String → Option String
  pub lock : Lock
  pub derivers : List (String × (List (String × Option Bytes) → Derived))
  pub unit_state : String → Option String
  pub base : Health
  pub after : Health
  pub verdicts : Target → List Bool
  pub units_known : Bool
  pub act : Action → Bool
  pub stable : String → Want → Bool
  pub runtime_restored : Bool
  pub keep : ℕ  -- `TX_KEEP`

-- A loop over a list.
unfoldable pub for_each {ℓ} : {A : Type ℓ} → List A → (A → Run (Unit {0})) → Run (Unit {0})
for_each [] f = pure tt
for_each (x ∷ xs) f = do f x; for_each xs f

-- An exception of the step is noted and the loop goes on.
unfoldable pub attempt : Run (Unit {0}) → Run Bool
attempt m = catch (do m; pure true) (λ _. pure false)

abbrev pub want_text : Want → String
want_text active = "active"
want_text inactive = "inactive"
