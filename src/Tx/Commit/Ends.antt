-- ===== src/Tx/Commit/Ends.antt =====
-- How a transaction of deploy/bot/pdgtx.py is given up, and what it leaves behind at the end.
use proxy_gateway_plus.Prelude.{Bool, true, false, ◌&&◌, none, if◌then◌else◌, String_eq, Option_eq}
use proxy_gateway_plus.Tx.{aborted, is_unstarted}
use proxy_gateway_plus.Tx.Gc.{gc_from}
use proxy_gateway_plus.Tx.Effect.{
  Run, Exn, busy, refused, ◌>>=◌, ◌>>◌, pure, raise, gets, modify, durable,
}
use proxy_gateway_plus.Tx.Assemble.{save_meta, side_file}
use proxy_gateway_plus.Tx.Commit.Outside.{Env, attempt}

-- `_note_leftovers`: what could not be removed is a warning, recorded if possible.
unfoldable pub note_leftovers : Bool → Run (Unit {0})
note_leftovers true = pure tt
note_leftovers false = do _ ← attempt save_meta; pure tt

-- `_cleanup_materials` and `_note_leftovers`
unfoldable pub cleanup : Run (Unit {0})
cleanup = do
  candidates ← attempt side_file
  before ← attempt (durable (λ d. record d { before = none }))
  note_leftovers (candidates && before)

-- `_abort`
unfoldable pub abort : Run (Unit {0})
abort = do
  state ← gets (λ w. w.tx.state)
  if is_unstarted state
      then (do modify (λ tx. record tx { state = aborted }); save_meta; cleanup)
      else pure tt

-- `abort_unstarted`: where the state cannot be written, it is left as it was.
unfoldable pub abort_unstarted : Run Bool
abort_unstarted = do
  state ← gets (λ w. w.tx.state)
  if is_unstarted state
      then (do
        modify (λ tx. record tx { state = aborted })
        written ← attempt save_meta
        if written
            then (do cleanup; pure true)
            else (do modify (λ tx. record tx { state = state }); pure false))
      else pure false

unfoldable pub give_up : Exn → Run (Unit {0})
give_up refused = do abort; raise refused
give_up busy = do abort; raise busy
give_up e = raise e

module _ (env : Env) where
  open env use {keep}

  -- `_gc` at the end, which never raises. Its own transaction counts if it is finished, and stays.
  unfoldable pub collect_old : Bool → Run (Unit {0})
  collect_old is_finished = do
    _ ←
        attempt (
          durable (λ d. record d { others = gc_from keep (if is_finished then 1 else 0) d.others }))
    pure tt

  -- The materials go first, then the oldest of the finished transactions.
  unfoldable pub wind_up : Run (Unit {0})
  wind_up = do cleanup; collect_old true
