-- ===== src/Tx/Crash.antt =====
-- `Tx.commit` and `Tx.abort_unstarted` of deploy/bot/pdgtx.py, cut off or failing anywhere.
use proxy_gateway_plus.Prelude.{
  String, Bool, true, false, some, List, ◌≡◌, refl, ap, subst, if◌then◌else◌, inl, inr,
}
use proxy_gateway_plus.Tx.{committed, is_unstarted, Target, Image, Files}
use proxy_gateway_plus.Tx.Effect.{Tx, World, busy, refused, pure, raise}
use proxy_gateway_plus.Tx.Assemble.{save_meta, set_state, meta_of}
use proxy_gateway_plus.Tx.Commit.{
  Env, Lock, free, held, unusable, execute, finish, commit_locked, commit,
}
use proxy_gateway_plus.Tx.Rules.{Spec, Spec-bind, Spec-weaken, Spec-Keeps}
use proxy_gateway_plus.Tx.Specs.{
  Spec-pure, Spec-raise, Spec-gets, Spec-handle, Spec-modify, Spec-require, Spec-durable,
}
use proxy_gateway_plus.Tx.Prepare.{Resolved, Untouched, put_target-All}
use proxy_gateway_plus.Tx.Quiet.{Quiet, Keeps-prepare}
use proxy_gateway_plus.Tx.Before.{Ready, Spec-record_before}
use proxy_gateway_plus.Tx.Filled.{Aimed}
use proxy_gateway_plus.Tx.Journal.{Safe, Journaled-Safe, Settled}
use proxy_gateway_plus.Tx.Apply.{Spec-start, Spec-apply_all}
use proxy_gateway_plus.Tx.RolledBack.{Started, begun, Spec-rollback}
use proxy_gateway_plus.Tx.Endings.{
  Closed, Closed-Settled, Closed-save_meta, Closed-wind_up, Spec-give_up,
}

-- Nothing before APPLYING writes a production file, and all targets are whitelisted ones.
Untouched-Quiet : (env : Env) (files : Files) → Quiet env (λ _. Unit) (Untouched env files)
Untouched-Quiet env files = record {
  blind = λ w rest h. h;
  progress = λ w images intended h. h;
  entered = λ w s _ h. h;
  staged = λ w t r h. (h.0, put_target-All (Resolved env) t w.tx.targets r h.1);
  saved = λ w h. h;
  index = λ w b h. h;
  collected = λ w kept h. h;
}

module _ (env : Env) (files : Files) where
  module _ (targets : List Target) (images : List (String × Image)) where
    -- The change to COMMITTED: before it is on the disk, recovery is still possible.
    Spec-to_committed :
        Spec
          (Started env files targets images)
          (set_state committed)
          (λ _. (Closed env files))
          (Settled env files)
    unfolding set_state save_meta Started Closed meta_of
    Spec-to_committed =
        Spec-bind _ _ (Spec-gets {Q = λ _. (Started env files targets images)} _ (λ w h. h))
          (λ state.
            Spec-bind _ _
              (Spec-require {Q = λ _. (Started env files targets images)} _ _ (λ _ w h. h)
                (begun env files targets images))
              (λ _.
                Spec-bind _ _
                  (Spec-modify {Q = λ _ w. Safe env files w × (w.tx.state ≡ committed)} _
                    (λ w h. (Journaled-Safe env files targets images w h, refl)))
                  (λ _.
                    Spec-bind _ _
                      (Spec-gets
                        {Q = λ tx w. (Safe env files w × (w.tx.state ≡ committed)) × (w.tx ≡ tx)} _
                        (λ w h. (h, refl)))
                      (λ tx.
                        Spec-durable _ (λ w rest h. h) (λ w h. wrote tx w h)
                          (λ w h. inr (h.0.0, ap is_unstarted h.0.1))
                          (λ w h.
                            (Closed-Settled env files)
                              (record w { disk = record w.disk { saved = some (meta_of tx) } })
                              (wrote tx w h))))))
      where
        wrote :
            (tx : Tx) (w : World)
            → (Safe env files w × (w.tx.state ≡ committed)) × (w.tx ≡ tx)
            → (Closed env files) (record w { disk = record w.disk { saved = some (meta_of tx) } })
        wrote tx w ((safe, st), same) =
            ((meta_of tx, refl, subst (λ x. x.state ≡ committed) same st), st)

    Spec-finish :
        Spec
          (Started env files targets images)
          (finish env)
          (λ _. Settled env files)
          (Settled env files)
    unfolding finish
    Spec-finish = Spec-bind _ _ Spec-to_committed (λ _.
        Spec-bind _ _
          (Spec-weaken {Q = λ _. (Closed env files)} _ (Closed-save_meta env files) (λ w h. h)
            (λ _ w h. h) (Closed-Settled env files))
          (λ _.
            Spec-weaken _ (Spec-Keeps _ (Closed-wind_up env files)) (λ w h. h)
              (λ _. (Closed-Settled env files)) (Closed-Settled env files)))

    Spec-execute :
        Spec
          (Ready env files targets images)
          (execute env)
          (λ _. Settled env files)
          (Settled env files)
    unfolding execute Started
    Spec-execute = Spec-bind _ _ (Spec-start env files targets images) (λ _.
        Spec-bind {Q = After} _ _
          (Spec-handle {C₀ = (Started env files targets images)} _ _
            (Spec-bind _ _ (Spec-apply_all env files targets images)
              (λ _. Spec-pure true (λ w h. h)))
            (λ _.
              Spec-bind _ _ (Spec-rollback env files targets images)
                (λ _. Spec-pure false (λ w h. h)))
            (begun env files targets images))
          finishing)
      where
        After : Bool → World → Type 0
        After true = (Started env files targets images)
        After false = Settled env files

        finishing :
            (applied : Bool)
            → Spec
                (After applied)
                (if applied then finish env else pure tt)
                (λ _. Settled env files)
                (Settled env files)
        finishing true = Spec-finish
        finishing false = Spec-pure tt (λ w h. h)

  Spec-commit_locked :
      Spec (Untouched env files) (commit_locked env) (λ _. Settled env files) (Settled env files)
  unfolding commit_locked
  Spec-commit_locked =
      Spec-bind _ _
        (Spec-weaken {Q = λ _. Untouched env files} _
          (Spec-Keeps _ (Keeps-prepare env _ _ (Untouched-Quiet env files) tt)) (λ w h. h)
          (λ _ w h. h) intact)
        (λ _. record {
          at = λ w h.
              (Spec-bind _ _
                  (Spec-weaken {P = Aimed env files w.tx.targets} {C = Settled env files}
                    {Q = λ _ v.
                      (images : List (String × Image)) × Ready env files w.tx.targets images v}
                    _ (Spec-record_before env files w.tx.targets h.1) (λ v a. a) (λ _ v r. r)
                    (λ v a. inl (λ p. ap (λ f. f p) a.0)))
                  (λ _. record {
                    at = λ v (images, r). (Spec-execute w.tx.targets images).at v r;
                  })).at
                w (h.0, refl);
        })
    where
      intact : (w : World) → Untouched env files w → Settled env files w
      intact w h = inl (λ p. ap (λ f. f p) h.0)

  pub Spec-commit :
      Spec (Untouched env files) (commit env) (λ _. Settled env files) (Settled env files)
  unfolding commit
  Spec-commit =
      Spec-handle {C₀ = Settled env files} _ _ (locked env.lock) (Spec-give_up env files) (λ w h. h)
    where
      intact : (w : World) → Untouched env files w → Settled env files w
      intact w h = inl (λ p. ap (λ f. f p) h.0)

      locked :
          (l : Lock)
          → Spec
              (Untouched env files)
              (elim l [ free ↦ commit_locked env | held ↦ raise busy | unusable ↦ raise refused ])
              (λ _. Settled env files)
              (Settled env files)
      locked free = Spec-commit_locked
      locked held = Spec-raise busy intact
      locked unusable = Spec-raise refused intact
