-- ===== src/Tx/RolledBack.antt =====
-- `Tx._rollback` of deploy/bot/pdgtx.py after the transaction has started, cut off or failing anywhere.
use proxy_gateway_plus.Prelude.{
  String, Bool, true, List, ◌≡◌, refl, sym, subst, All, inl, inr, arith,
}
use proxy_gateway_plus.Tx.{rolling_back, rolled_back, rollback_failed, Target, Image, Files}
use proxy_gateway_plus.Tx.Effect.{Tx, World}
use proxy_gateway_plus.Tx.Commit.{Env, rollback, restore_all}
use proxy_gateway_plus.Tx.Views.{View-set_state}
use proxy_gateway_plus.Tx.Rules.{Spec, Spec-bind, Spec-weaken, Spec-Keeps}
use proxy_gateway_plus.Tx.Specs.{Spec-gets, Spec-if}
use proxy_gateway_plus.Tx.Journal.{
  names_of, Imaged, Unchanged, Journaled, Settled, Journaled-Settled,
}
use proxy_gateway_plus.Tx.Writes.{Spec-set_state}
use proxy_gateway_plus.Tx.Rollback.{AllBack, Spec-restore_all, Keeps-verify_all, back_everywhere}
use proxy_gateway_plus.Tx.Endings.{unchanged, Spec-wind_up-Unchanged}

module _ (env : Env) (files : Files) (targets : List Target) (images : List (String × Image)) where
  unfoldable pub Started : World → Type 0
  Started = Journaled env files targets images

  pub begun : (w : World) → Started w → Settled env files w
  unfolding Started
  begun = Journaled-Settled env files targets images

  all_back :
      (restored : Bool) (w : World)
      → restored ≡ true
      → AllBack env files targets images targets restored w
      → Unchanged files w
  all_back restored w ok (j, back) p =
      elim (back_everywhere files w.disk.files p (names_of targets) (back ok)) [
        | inl elsewhere ↦ j.others_kept p elsewhere
        | inr same ↦ same
      ]

  Spec-restoring :
      (tx : Tx)
      → All (Imaged env files images) (names_of targets)
      → tx.targets ≡ targets
      → tx.images ≡ images
      → Spec Started
          (restore_all env tx.images tx.targets)
          (AllBack env files targets images targets)
          Started
  unfolding Started
  Spec-restoring tx imaged e f =
      subst
        (λ ts.
          Spec Started (restore_all env tx.images ts) (AllBack env files targets images targets)
            Started)
        (sym e)
        (subst
          (λ is.
            Spec Started (restore_all env is targets) (AllBack env files targets images targets)
              Started)
          (sym f) (Spec-restore_all env files targets images imaged))

  -- A rollback that reports success has put everything back; any other keeps the record.
  pub Spec-rollback : Spec Started (rollback env) (λ _. Settled env files) (Settled env files)
  unfolding rollback Started
  Spec-rollback =
      Spec-bind _ _
        (Spec-weaken {Q = λ _. Started} _
          (Spec-set_state env files targets images rolling_back refl) (λ w h. h) (λ _ w h. h) begun)
        (λ _.
          Spec-bind _ _ (Spec-gets {Q = λ tx w. Started w × (w.tx ≡ tx)} _ (λ w h. (h, refl)))
            (λ tx.
              Spec-bind {Q = AllBack env files targets images targets} _ _ (restoring tx)
                (λ restored.
                  Spec-bind _ _
                    (Spec-weaken {Q = λ _. AllBack env files targets images targets restored} _
                      (Spec-Keeps {I = AllBack env files targets images targets restored} _
                        (Keeps-verify_all env tx.images tx.targets))
                      (λ w h. h) (λ _ w h. h) (λ w h. begun w h.0))
                    (λ verified.
                      Spec-if _ _ _
                        (λ ok.
                          Spec-weaken {P₀ = Unchanged files} _
                            (Spec-bind _ _
                              ((unchanged env files) _ (
                                View-set_state (λ tx now. (p : String) → now p ≡ files p)
                                  rolled_back (λ w h. h)))
                              (λ _. (Spec-wind_up-Unchanged env files)))
                            (λ w h. all_back restored w (ground (arith, ok)) h) (λ _ w h. h)
                            (λ w h. h))
                        (λ _.
                          Spec-weaken _
                            (Spec-set_state env files targets images rollback_failed refl)
                            (λ w h. h.0) (λ _. begun) begun)))))
    where
      restoring :
          (tx : Tx)
          → Spec
              (λ w. Started w × (w.tx ≡ tx))
              (restore_all env tx.images tx.targets)
              (AllBack env files targets images targets)
              (Settled env files)
      restoring tx = record {
        at = λ w (h, same).
            (Spec-weaken {P = Started} {C = Settled env files} _
                (Spec-restoring tx h.imaged (subst (λ x. x.targets ≡ targets) same h.targets_are)
                  (subst (λ x. x.images ≡ images) same h.images_are))
                (λ v j. j) (λ ok v j. j) begun).at
              w h;
      }
