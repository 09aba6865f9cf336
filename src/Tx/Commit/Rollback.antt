-- ===== src/Tx/Commit/Rollback.antt =====
-- `Tx._rollback` of deploy/bot/pdgtx.py.
use proxy_gateway_plus.Prelude.{
  String, Bool, true, false, ◌&&◌, Option, none, some, List, [], ◌∷◌, if◌then◌else◌, ◌==◌,
  String_eq, Option_eq,
}
use proxy_gateway_plus.Tx.{
  rolling_back, rolled_back, rollback_failed, Target, Image, kept, Bytes, regular, assoc, write,
  exists,
}
use proxy_gateway_plus.Tx.Effect.{Run, os_error, ◌>>=◌, ◌>>◌, pure, raise, gets, durable}
use proxy_gateway_plus.Tx.Assemble.{read_target, unlink, set_state}
use proxy_gateway_plus.Tx.Commit.Outside.{Env, attempt}
use proxy_gateway_plus.Tx.Commit.Ends.{wind_up}

module _ (env : Env) where
  open env use {sha, runtime_restored}

  -- Put one file back as the before-image has it.
  unfoldable pub restore_from : Bool → String → Option Image → Run (Unit {0})
  restore_from there path (some (kept (some d) _)) =
      durable (λ k. record k { files = write path (regular d) k.files })
  restore_from there path (some (kept none _)) = raise os_error
  restore_from there path _ = if there then unlink path else pure tt

  unfoldable pub restore_one : List (String × Image) → Target → Run (Unit {0})
  restore_one images t = do
    there ← gets (λ w. exists (w.disk.files t.path))
    restore_from there t.path (assoc t.name images)

  unfoldable pub restore_all : List (String × Image) → List Target → Run Bool
  restore_all images [] = pure true
  restore_all images (t ∷ rest) = do
    here ← attempt (restore_one images t)
    later ← restore_all images rest
    pure (here && later)

  -- The file is again what the before-image says.
  unfoldable pub is_restored : Option Image → Option Bytes → Bool
  is_restored (some (kept _ digest)) (some d) = sha d == digest
  is_restored (some (kept _ digest)) none = false
  is_restored _ (some d) = false
  is_restored _ none = true

  unfoldable pub verify_all : List (String × Image) → List Target → Run Bool
  verify_all images [] = pure true
  verify_all images (t ∷ rest) = do
    cur ← read_target t.path
    later ← verify_all images rest
    pure (is_restored (assoc t.name images) cur && later)

  -- `_rollback`
  unfoldable pub rollback : Run (Unit {0})
  rollback = do
    set_state rolling_back
    tx ← gets (λ w. w.tx)
    restored ← restore_all tx.images tx.targets
    verified ← verify_all tx.images tx.targets
    if restored && runtime_restored && verified
        then (do set_state rolled_back; wind_up env)
        else set_state rollback_failed
