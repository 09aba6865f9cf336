-- ===== src/Tx/Closed.antt =====
-- `Tx.commit` of deploy/bot/pdgtx.py against an invariant that each single effect keeps.
use proxy_gateway_plus.Prelude.{
  String, Bool, true, false, Option, none, some, List, [], ◌∷◌, if◌then◌else◌,
}
use proxy_gateway_plus.Tx.{
  TxState, validated, applying, observing, committed, rolling_back, rolled_back, rollback_failed,
  aborted, Target, Image, missing, kept, Bytes, absent, regular, assoc, write,
}
use proxy_gateway_plus.Tx.Effect.{World, durable, busy, refused, os_error, pure, raise}
use proxy_gateway_plus.Tx.Assemble.{unlink}
use proxy_gateway_plus.Tx.Commit.{
  Env, Lock, free, held, unusable, apply_one, do_action, judge_run, apply_all, restore_from,
  restore_one, restore_all, rollback, finish, execute, commit_locked, commit,
}
use proxy_gateway_plus.Tx.Rules.{
  Keeps, Keeps-pure, Keeps-raise, Keeps-gets, Keeps-require, Keeps-if, Keeps-bind, Keeps-catch,
  Keeps-durable, Keeps-for_each, Keeps-attempt,
}
use proxy_gateway_plus.Tx.Rollback.{Keeps-verify_all}
use proxy_gateway_plus.Tx.Quiet.{
  Quiet, Keeps-save_meta, Keeps-set_state, Keeps-wind_up, Keeps-prepare, Keeps-record_before,
  Keeps-give_up,
}

-- All single effects of a commit keep it.
pub record Closed (env : Env) (Enters : TxState → Type 0) (I : World → Type 0) : Type 0 where
  pub quiet : Quiet env Enters I
  pub written :
      (w : World) (path : String) (d : Bytes)
      → I w
      → I (record w { disk = record w.disk { files = write path (regular d) w.disk.files } })
  pub removed :
      (w : World) (path : String)
      → I w
      → I (record w { disk = record w.disk { files = write path absent w.disk.files } })

module _ (env : Env) (Enters : TxState → Type 0) (I : World → Type 0)
    (c : Closed env Enters I) where
  pub Keeps-unlink : (path : String) → Keeps I (unlink path)
  unfolding unlink
  Keeps-unlink path = Keeps-bind _ _ (Keeps-gets _) (λ there.
      Keeps-bind _ _ (Keeps-require _ _)
        (λ _. Keeps-durable _ c.quiet.blind (λ w h. c.removed w path h)))

  pub Keeps-write :
      (path : String) (d : Bytes)
      → Keeps I (durable (λ k. record k { files = write path (regular d) k.files }))
  Keeps-write path d = Keeps-durable _ c.quiet.blind (λ w h. c.written w path d h)

  Keeps-apply_one : (t : Target) → Keeps I (apply_one env t)
  unfolding apply_one
  Keeps-apply_one t = go t.content
    where
      go :
          (b : Option Bytes)
          → Keeps I (elim b [
            | some d ↦ durable (λ k. record k { files = write t.path (regular d) k.files })
            | none ↦ if t.existed then unlink t.path else pure tt
          ])
      go (some d) = Keeps-write t.path d
      go none = Keeps-if t.existed _ _ (Keeps-unlink t.path) (Keeps-pure tt)

  Keeps-apply_all : ((s : TxState) → Enters s) → Keeps I (apply_all env)
  unfolding apply_all do_action judge_run
  Keeps-apply_all any = Keeps-bind _ _ (Keeps-gets _) (λ targets.
      Keeps-bind _ _ (Keeps-for_each targets _ Keeps-apply_one) (λ _.
        Keeps-bind _ _ (Keeps-save_meta env Enters I c.quiet) (λ _.
          Keeps-bind _ _ (Keeps-gets _) (λ actions.
            Keeps-bind _ _ (Keeps-for_each actions _ (λ a. Keeps-require _ _)) (λ _.
              Keeps-bind _ _ (Keeps-set_state env Enters I c.quiet observing (any observing)) (λ _.
                Keeps-bind _ _ (Keeps-gets _) (λ tx. Keeps-bind _ _ (Keeps-require _ _) (λ _.
                  Keeps-bind _ _ (Keeps-save_meta env Enters I c.quiet)
                    (λ _. Keeps-require _ _)))))))))

  Keeps-restore_from :
      (there : Bool) (path : String) (o : Option Image) → Keeps I (restore_from env there path o)
  unfolding restore_from
  Keeps-restore_from there path none = Keeps-if there _ _ (Keeps-unlink path) (Keeps-pure tt)
  Keeps-restore_from there path (some missing) =
      Keeps-if there _ _ (Keeps-unlink path) (Keeps-pure tt)
  Keeps-restore_from there path (some (kept none d)) = Keeps-raise os_error
  Keeps-restore_from there path (some (kept (some b) d)) = Keeps-write path b

  Keeps-restore_all :
      (images : List (String × Image)) (ts : List Target) → Keeps I (restore_all env images ts)
  unfolding restore_all restore_one
  Keeps-restore_all images [] = Keeps-pure true
  Keeps-restore_all images (t ∷ ts) =
      Keeps-bind _ _
        (Keeps-attempt _ (
          Keeps-bind _ _ (Keeps-gets _)
            (λ there. Keeps-restore_from there t.path (assoc t.name images))))
        (λ here. Keeps-bind _ _ (Keeps-restore_all images ts) (λ later. Keeps-pure _))

  pub Keeps-rollback :
      Enters rolling_back → Enters rolled_back → Enters rollback_failed → Keeps I (rollback env)
  unfolding rollback
  Keeps-rollback a b f = Keeps-bind _ _ (Keeps-set_state env Enters I c.quiet rolling_back a) (λ _.
      Keeps-bind _ _ (Keeps-gets _) (λ tx.
        Keeps-bind _ _ (Keeps-restore_all tx.images tx.targets) (λ restored.
          Keeps-bind _ _ (Keeps-verify_all env tx.images tx.targets) (λ verified.
            Keeps-if _ _ _
              (Keeps-bind _ _ (Keeps-set_state env Enters I c.quiet rolled_back b)
                (λ _. (Keeps-wind_up env Enters I c.quiet)))
              (Keeps-set_state env Enters I c.quiet rollback_failed f)))))

  Keeps-execute : ((s : TxState) → Enters s) → Keeps I (execute env)
  unfolding execute finish
  Keeps-execute any =
      Keeps-bind _ _ (Keeps-set_state env Enters I c.quiet applying (any applying)) (λ _.
        Keeps-bind _ _
          (Keeps-catch _ _ (Keeps-bind _ _ (Keeps-apply_all any) (λ _. Keeps-pure true)) (λ _.
            Keeps-bind _ _
              (Keeps-rollback (any rolling_back) (any rolled_back) (any rollback_failed))
              (λ _. Keeps-pure false)))
          (λ applied.
            Keeps-if applied _ _
              (Keeps-bind _ _ (Keeps-set_state env Enters I c.quiet committed (any committed)) (λ _.
                Keeps-bind _ _ (Keeps-save_meta env Enters I c.quiet)
                  (λ _. (Keeps-wind_up env Enters I c.quiet))))
              (Keeps-pure tt)))

  -- Such an invariant holds wherever a commit ends.
  pub Keeps-commit : ((s : TxState) → Enters s) → Keeps I (commit env)
  unfolding commit commit_locked
  Keeps-commit any =
      Keeps-catch _ _ (locked env.lock) (Keeps-give_up env Enters I c.quiet (any aborted))
    where
      locked :
          (l : Lock)
          → Keeps I
              (elim l [ free ↦ commit_locked env | held ↦ raise busy | unusable ↦ raise refused ])
      locked free =
          Keeps-bind _ _ (Keeps-prepare env Enters I c.quiet (any validated)) (λ _.
            Keeps-bind _ _ (Keeps-record_before env Enters I c.quiet) (λ _. Keeps-execute any))
      locked held = Keeps-raise busy
      locked unusable = Keeps-raise refused
