-- ===== src/Tx/Committed.antt =====
-- `Tx.commit` of deploy/bot/pdgtx.py: a transaction that ends committed has done what it was to do.
use proxy_gateway_plus.Prelude.{Bool, true, false, if◌then◌else◌, ◌≡◌, ◌≢◌}
use proxy_gateway_plus.Tx.{applying, committed, is_unstarted}
use proxy_gateway_plus.Tx.Effect.{
  World, Run, Exn, busy, refused, tx_error, os_error, apply_failed, pure, raise,
}
use proxy_gateway_plus.Tx.Assemble.{set_state}
use proxy_gateway_plus.Tx.Commit.{
  Env, Lock, free, held, unusable, commit_locked, abort, give_up, commit, finish, execute,
}
use proxy_gateway_plus.Tx.Rules.{Keeps, Spec, Spec-bind, Spec-weaken, Spec-Keeps, Spec-at}
use proxy_gateway_plus.Tx.Specs.{
  Spec-pure, Spec-raise, Spec-gets, Spec-if, Spec-modify, Spec-require, Spec-handle,
}
use proxy_gateway_plus.Tx.Landing.{Open, Landed, LandedIfDone, Apart}
use proxy_gateway_plus.Tx.Landed.{Good, Judged, Spec-apply_all_to_end}
use proxy_gateway_plus.Tx.Quiet.{
  Keeps-save_meta, Keeps-set_state, Keeps-cleanup, Keeps-prepare, Keeps-record_before,
}
use proxy_gateway_plus.Tx.Closed.{Closed, Keeps-rollback}
use proxy_gateway_plus.Tx.Views.{View, View-save_meta, View-wind_up}

module _ (env : Env) where
  Open-Closed : Closed env (λ s. s ≢ committed) (Open env)
  Open-Closed = record {
    quiet = record {
      blind = λ w rest h. h;
      progress = λ w images intended h. h;
      entered = λ w s other h. other;
      staged = λ w t r h. h;
      saved = λ w h. h;
      index = λ w b h. h;
      collected = λ w kept h. h;
    };
    written = λ w path d h. h;
    removed = λ w path h. h;
  }

  Open-LandedIfDone : (w : World) → Open env w → LandedIfDone env w
  Open-LandedIfDone w h e = absurd (h e)

  Spec-landed : Spec (Judged env) (finish env) (λ _. LandedIfDone env) (LandedIfDone env)
  unfolding finish Judged Good set_state
  Spec-landed =
      Spec-bind _ _
        (Spec-bind _ _ (Spec-gets {Q = λ _. Judged env} _ (λ w h. h)) (λ state.
          Spec-bind _ _
            (Spec-require {Q = λ _. Judged env} _ _ (λ _ w h. h) (λ w h. Open-LandedIfDone w h.0))
            (λ _.
              Spec-bind _ _
                (Spec-modify {Q = λ _. View (Good env)} _ (λ w h a. record {
                  holds = (h.1 a).holds;
                  reached = (h.1 a).reached;
                  steady = (h.1 a).steady;
                }))
                (λ _. keeps _ (View-save_meta (Good env))))))
        (λ _. Spec-bind _ _ (keeps _ (View-save_meta (Good env))) (λ _.
          Spec-weaken _ (keeps _ (View-wind_up (Good env) env)) (λ w h. h) (λ _ w h e. h)
            (λ w h. h)))
    where
      keeps :
          (m : Run (Unit {0}))
          → Keeps (View (Good env)) m
          → Spec (View (Good env)) m (λ _. View (Good env)) (LandedIfDone env)
      keeps m k = Spec-weaken _ (Spec-Keeps m k) (λ w h. h) (λ _ w h. h) (λ w h e. h)

  opened :
      {A : Type 0} (m : Run A)
      → Keeps (Open env) m
      → Spec (Open env) m (λ _. Open env) (LandedIfDone env)
  opened m k = Spec-weaken _ (Spec-Keeps m k) (λ w h. h) (λ _ w h. h) Open-LandedIfDone

  pub Spec-execute_landed : Spec (Open env) (execute env) (λ _. LandedIfDone env) (LandedIfDone env)
  unfolding execute
  Spec-execute_landed =
      Spec-bind _ _ (opened _ (Keeps-set_state env _ _ Open-Closed.quiet applying (λ e. cc))) (λ _.
        Spec-bind {Q = After} _ _
          (Spec-handle {C₀ = Open env} _ _
            (Spec-bind _ _ (Spec-apply_all_to_end env) (λ _. Spec-pure true (λ w h. h)))
            (λ _.
              Spec-bind _ _
                (opened _ (Keeps-rollback env _ _ Open-Closed (λ e. cc) (λ e. cc) (λ e. cc)))
                (λ _. Spec-pure false (λ w h. h)))
            Open-LandedIfDone)
          finishing)
    where
      After : Bool → World → Type 0
      After true = Judged env
      After false = Open env

      finishing :
          (applied : Bool)
          → Spec
              (After applied)
              (if applied then finish env else pure tt)
              (λ _. LandedIfDone env)
              (LandedIfDone env)
      finishing true = Spec-landed
      finishing false = Spec-pure tt Open-LandedIfDone

  -- A refusal aborts what has not started, and nothing else.
  LandedIfDone-abort : Spec (LandedIfDone env) abort (λ _. LandedIfDone env) (LandedIfDone env)
  unfolding abort
  LandedIfDone-abort = Spec-bind _ _ (Spec-gets {Q = λ _. LandedIfDone env} _ (λ w h. h)) (λ state.
      Spec-if (is_unstarted state) _ _
        (λ _. Spec-bind _ _ (Spec-modify {Q = λ _. Open env} _ (λ w h e. cc)) (λ _.
          Spec-bind _ _ (opened _ (Keeps-save_meta env _ _ Open-Closed.quiet)) (λ _.
            Spec-weaken _ (opened _ (Keeps-cleanup env _ _ Open-Closed.quiet)) (λ w h. h)
              (λ _. Open-LandedIfDone) (λ w h. h))))
        (λ _. Spec-pure tt (λ w h. h)))

  LandedIfDone-give_up :
      (e : Exn) → Spec (LandedIfDone env) (give_up e) (λ _. LandedIfDone env) (LandedIfDone env)
  unfolding give_up
  LandedIfDone-give_up refused =
      Spec-bind _ _ LandedIfDone-abort (λ _. Spec-raise refused (λ w h. h))
  LandedIfDone-give_up busy = Spec-bind _ _ LandedIfDone-abort (λ _. Spec-raise busy (λ w h. h))
  LandedIfDone-give_up tx_error = Spec-raise tx_error (λ w h. h)
  LandedIfDone-give_up os_error = Spec-raise os_error (λ w h. h)
  LandedIfDone-give_up apply_failed = Spec-raise apply_failed (λ w h. h)

  LandedIfDone-commit : Spec (Open env) (commit env) (λ _. LandedIfDone env) (LandedIfDone env)
  unfolding commit commit_locked
  LandedIfDone-commit =
      Spec-handle {C₀ = LandedIfDone env} _ _ (locked env.lock) LandedIfDone-give_up (λ w h. h)
    where
      locked :
          (l : Lock)
          → Spec
              (Open env)
              (elim l [ free ↦ commit_locked env | held ↦ raise busy | unusable ↦ raise refused ])
              (λ _. LandedIfDone env)
              (LandedIfDone env)
      locked free =
          Spec-bind _ _ (opened _ (Keeps-prepare env _ _ Open-Closed.quiet (λ e. cc))) (λ _.
            Spec-bind _ _ (opened _ (Keeps-record_before env _ _ Open-Closed.quiet))
              (λ _. Spec-execute_landed))
      locked held = Spec-raise busy Open-LandedIfDone
      locked unusable = Spec-raise refused Open-LandedIfDone

-- Whatever fails on the way, a commit whose transaction ends committed, having begun otherwise and
-- with no two targets at one path, has every candidate in its file and has deleted every file that
-- it was to delete and that was there when this was staged; of the units that it looks at, each that
-- an action names is in the requested end state, and any other is active unless it was down before;
-- and no check is bad that was not bad before.
pub commit-Landed :
    (env : Env) (w : World)
    → w.tx.state ≢ committed
    → (commit env w).1.tx.state ≡ committed
    → Apart (commit env w).1.tx.targets
    → Landed env (commit env w).1.tx (commit env w).1.disk.files
commit-Landed env w start finished apart =
    Spec-at {P = Open env} {C = LandedIfDone env} (commit env) w (LandedIfDone-commit env) start
      finished apart
