-- ===== src/Tx/Landed.antt =====
-- `Tx._commit_locked` of deploy/bot/pdgtx.py from APPLYING on: what COMMITTED stands for.
use proxy_gateway_plus.Prelude.{true, ◌≡◌, ◌≢◌, refl, sym, subst, All}
use proxy_gateway_plus.Tx.{observing, committed, Files}
use proxy_gateway_plus.Tx.Action.{expected_states}
use proxy_gateway_plus.Tx.Observe.{units_hold-Reached, not_worse-NotWorse, services, units_hold}
use proxy_gateway_plus.Tx.Effect.{Tx, World, Run}
use proxy_gateway_plus.Tx.Commit.{Env, do_action, judge_run, apply_all}
use proxy_gateway_plus.Tx.Rules.{
  Keeps, Spec, Spec-bind, Spec-weaken, Spec-Keeps, Keeps-require, Keeps-for_each,
}
use proxy_gateway_plus.Tx.Specs.{Spec-gets, Spec-require}
use proxy_gateway_plus.Tx.Views.{View-save_meta, View-set_state}
use proxy_gateway_plus.Tx.Landing.{Apart, Holds, Landed, Open, Spec-apply_targets, Written}

module _ (env : Env) where
  unfoldable pub Good : Tx → Files → Type 0
  Good tx now = Apart tx.targets → Landed env tx now

  -- Applied and judged, but not committed.
  unfoldable pub Judged : World → Type 0
  Judged w = Open env w × Good w.tx w.disk.files

  WrittenOf : Tx → Files → Type 0
  WrittenOf tx now = (tx.state ≢ committed) × (Apart tx.targets → All (Holds now) tx.targets)

  Spec-judge_run : Spec (Written env) (judge_run env) (λ _. Judged) (Open env)
  unfolding judge_run Judged Good
  Spec-judge_run =
      Spec-bind _ _ (Spec-gets {Q = λ tx w. Written env w × (w.tx ≡ tx)} _ (λ w h. (h, refl)))
        (λ tx.
          Spec-bind _ _
            (Spec-require {Q = λ _ w. Seen w.tx w.disk.files} _ _
              (λ up w h. (
                h.0,
                subst
                    (λ (x : Tx).
                      units_hold env.stable env.base (expected_states x.actions)
                        (services x.targets x.actions x.guards)
                      ≡ true)
                    (sym h.1) up,
              ))
              (λ w h. h.0.0))
            (λ _.
              Spec-bind _ _
                (Spec-weaken {Q = λ _ w. Seen w.tx w.disk.files} _
                  (Spec-Keeps _ (View-save_meta Seen)) (λ w h. h) (λ _ w h. h) (λ w h. h.0.0))
                (λ _.
                  Spec-require _ _
                    (λ steady w h. (
                      h.0.0,
                      λ a. record {
                        holds = h.0.1 a;
                        reached = units_hold-Reached env.stable env.base _ _ h.1;
                        steady = not_worse-NotWorse env.base env.after steady;
                      },
                    ))
                    (λ w h. h.0.0))))
    where
      Seen : Tx → Files → Type 0
      Seen tx now =
          ((tx.state ≢ committed) × (Apart tx.targets → All (Holds now) tx.targets))
          × (units_hold env.stable env.base (expected_states tx.actions)
                (services tx.targets tx.actions tx.guards)
              ≡ true)

  pub Spec-apply_all_to_end : Spec (Open env) (apply_all env) (λ _. Judged) (Open env)
  unfolding apply_all do_action WrittenOf
  Spec-apply_all_to_end =
      Spec-bind _ _ (Spec-gets {Q = λ ts w. Open env w × (w.tx.targets ≡ ts)} _ (λ w h. (h, refl)))
        (λ ts. Spec-bind _ _ (Spec-apply_targets env ts) (λ _.
          Spec-bind _ _ (open_after _ (View-save_meta WrittenOf)) (λ _.
            Spec-bind _ _ (Spec-gets {Q = λ _. Written env} _ (λ w h. h)) (λ actions.
              Spec-bind _ _ (open_after _ (Keeps-for_each actions _ (λ a. Keeps-require _ _))) (λ _.
                Spec-bind _ _
                  (open_after _ (View-set_state WrittenOf observing (λ w h. ((λ e. cc), h.1))))
                  (λ _. Spec-judge_run))))))
    where
      open_after :
          (m : Run (Unit {0}))
          → Keeps (Written env) m
          → Spec (Written env) m (λ _. Written env) (Open env)
      open_after m k = Spec-weaken _ (Spec-Keeps m k) (λ w h. h) (λ _ w h. h) (λ w h. h.0)
