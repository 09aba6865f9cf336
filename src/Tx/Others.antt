-- ===== src/Tx/Others.antt =====
-- What `Tx.commit` and `recover` of deploy/bot/pdgtx.py do to the other transactions.
use proxy_gateway_plus.Prelude.{ℕ, String, Option, List, ◌≡◌, ℕ_eq}
use proxy_gateway_plus.Tx.{TxState}
use proxy_gateway_plus.Tx.Effect.{World}
use proxy_gateway_plus.Tx.Gc.{only, is_open}
use proxy_gateway_plus.Tx.Listing.{pending_recovery, stale_unstarted}
use proxy_gateway_plus.Tx.Quiet.{Quiet}
use proxy_gateway_plus.Tx.Closed.{Closed}

-- The unfinished ones among them are the same as before.
pub record SameOpen (before : List (String × Option TxState)) (w : World) : Type 0 where
  pub unfinished : only is_open w.disk.others ≡ only is_open before
  pub stale :
      (now : ℕ) (started : String → ℕ) (older_than : ℕ)
      → stale_unstarted now started older_than w.disk.others
        ≡ stale_unstarted now started older_than before
  pub pending :
      (exclude : Option String)
      → pending_recovery exclude w.disk.others ≡ pending_recovery exclude before
