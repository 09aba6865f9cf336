-- ===== src/Tx/Success.antt =====
-- `recover` of deploy/bot/pdgtx.py as a whole where nothing fails.
use proxy_gateway_plus.Prelude.{String, Bool, true, List, [], ◌≡◌, ℕ_eq}
use proxy_gateway_plus.Tx.{Image, Meta}
use proxy_gateway_plus.Tx.Effect.{World}
use proxy_gateway_plus.Tx.Commit.{Env}
use proxy_gateway_plus.Tx.Recover.{Report, recovered}

Calm : World → Type 0
Calm w = w.fates ≡ []

module _ (env : Env) (force : Bool) (m : Meta) (images : List (String × Image))
    (steady : env.runtime_restored ≡ true) where
  Success : Report → World → Type 0
  Success r w = r ≡ recovered true
