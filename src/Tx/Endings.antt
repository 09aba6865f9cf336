-- ===== src/Tx/Endings.antt =====
-- How a run of `Tx.commit` in deploy/bot/pdgtx.py may end: committed, given up, or aborted.
use proxy_gateway_plus.Prelude.{
  String, Bool, true, false, ◌&&◌, ◌≡◌, refl, ◌∙◌, ap, subst, inl, inr, arith,
}
use proxy_gateway_plus.Tx.{committed, aborted, is_unstarted, Files}
use proxy_gateway_plus.Tx.Effect.{
  World, Run, Exn, busy, refused, tx_error, os_error, apply_failed, ◌>>◌, modify,
}
use proxy_gateway_plus.Tx.Assemble.{save_meta, side_file, meta_of}
use proxy_gateway_plus.Tx.Commit.{
  Env, note_leftovers, cleanup, collect_old, wind_up, abort, give_up,
}
use proxy_gateway_plus.Tx.Views.{View-save_meta, View-cleanup, View-wind_up}
use proxy_gateway_plus.Tx.Rules.{
  Keeps, Spec, Spec-bind, Spec-weaken, Spec-Keeps, Spec-at, Keeps-bind, Keeps-pure, Keeps-modify,
  Keeps-durable, Keeps-attempt,
}
use proxy_gateway_plus.Tx.Specs.{Spec-pure, Spec-raise, Spec-gets, Spec-durable, Spec-if}
use proxy_gateway_plus.Tx.Journal.{Unchanged, IsCommitted, Settled}

module _ (env : Env) (files : Files) where
  unfoldable pub Closed : World → Type 0
  Closed w = IsCommitted w × (w.tx.state ≡ committed)

  pub Closed-Settled : (w : World) → Closed w → Settled env files w
  unfolding Closed
  Closed-Settled w (h, same) = inr (inr (inr h), ap is_unstarted same)

  pub Closed-save_meta : Spec Closed save_meta (λ _. Closed) Closed
  unfolding save_meta Closed meta_of
  Closed-save_meta =
      Spec-bind _ _ (Spec-gets {Q = λ tx w. Closed w × (w.tx ≡ tx)} _ (λ w h. (h, refl))) (λ tx.
        Spec-durable _ (λ w rest h. h)
          (λ w (h, same). ((meta_of tx, refl, subst (λ x. x.state ≡ committed) same h.1), h.1))
          (λ w h. h.0)
          (λ w (h, same). ((meta_of tx, refl, subst (λ x. x.state ≡ committed) same h.1), h.1)))

  Keeps-Spec : (m : Run (Unit {0})) → Spec Closed m (λ _. Closed) Closed → Keeps Closed m
  Keeps-Spec m h = record { at = λ w d. Spec-at m w h d }

  Closed-note_leftovers : (removed : Bool) → Keeps Closed (note_leftovers removed)
  unfolding note_leftovers
  Closed-note_leftovers true = Keeps-pure tt
  Closed-note_leftovers false =
      Keeps-bind _ _ (Keeps-attempt _ (Keeps-Spec save_meta Closed-save_meta)) (λ _. Keeps-pure tt)

  Closed-cleanup : Keeps Closed cleanup
  unfolding cleanup side_file Closed
  Closed-cleanup =
      Keeps-bind _ _ (Keeps-attempt _ (Keeps-durable _ (λ w rest h. h) (λ w h. h))) (λ candidates.
        Keeps-bind _ _ (Keeps-attempt _ (Keeps-durable _ (λ w rest h. h) (λ w h. h)))
          (λ before. Closed-note_leftovers (candidates && before)))

  pub Closed-wind_up : Keeps Closed (wind_up env)
  unfolding wind_up collect_old Closed
  Closed-wind_up = Keeps-bind _ _ Closed-cleanup (λ _.
      Keeps-bind _ _ (Keeps-attempt _ (Keeps-durable _ (λ w rest h. h) (λ w h. h)))
        (λ _. Keeps-pure tt))

  pub unchanged :
      {A : Type 0} (m : Run A)
      → Keeps (Unchanged files) m
      → Spec (Unchanged files) m (λ _. Unchanged files) (Settled env files)
  unchanged m k = Spec-weaken _ (Spec-Keeps m k) (λ w h. h) (λ _ w h. h) (λ w h. inl h)

  -- `_abort` after the files were left alone, or after the transaction has started.
  Spec-abort : Spec (Settled env files) abort (λ _. Settled env files) (Settled env files)
  unfolding abort
  Spec-abort =
      Spec-bind _ _
        (Spec-gets {Q = λ state w. Settled env files w × (w.tx.state ≡ state)} _ (λ w h. (h, refl)))
        (λ state.
          Spec-if (is_unstarted state) _ _
            (λ fresh.
              Spec-weaken {P₀ = Unchanged files} _ (unchanged _ aborting)
                (λ w (h, same). only_files w h (ap is_unstarted same ∙ fresh)) (λ _ w h. inl h)
                (λ w h. h))
            (λ _. Spec-pure tt (λ w h. h.0)))
    where
      only_files :
          (w : World) → Settled env files w → is_unstarted w.tx.state ≡ true → Unchanged files w
      only_files w (inl h) fresh = h
      only_files w (inr (h, begun)) fresh = absurd (ground (arith, begun, fresh))

      aborting :
          Keeps
            (Unchanged files)
            (do modify (λ tx. record tx { state = aborted }); save_meta; cleanup)
      aborting = Keeps-bind _ _ (Keeps-modify _ (λ w h. h)) (λ _.
          Keeps-bind _ _ (View-save_meta (λ tx now. (p : String) → now p ≡ files p))
            (λ _. View-cleanup (λ tx now. (p : String) → now p ≡ files p)))

  pub Spec-give_up :
      (e : Exn) → Spec (Settled env files) (give_up e) (λ _. Settled env files) (Settled env files)
  unfolding give_up
  Spec-give_up refused = Spec-bind _ _ Spec-abort (λ _. Spec-raise refused (λ w h. h))
  Spec-give_up busy = Spec-bind _ _ Spec-abort (λ _. Spec-raise busy (λ w h. h))
  Spec-give_up tx_error = Spec-raise tx_error (λ w h. h)
  Spec-give_up os_error = Spec-raise os_error (λ w h. h)
  Spec-give_up apply_failed = Spec-raise apply_failed (λ w h. h)

  pub Spec-wind_up-Unchanged :
      Spec (Unchanged files) (wind_up env) (λ _. Settled env files) (Settled env files)
  Spec-wind_up-Unchanged =
      Spec-weaken _ (unchanged _ (View-wind_up (λ tx now. (p : String) → now p ≡ files p) env))
        (λ w h. h) (λ _ w h. inl h) (λ w h. h)
