-- ===== src/Tx/Reported.antt =====
-- What `recover` of deploy/bot/pdgtx.py reports, and that a failed one can be tried again.
use proxy_gateway_plus.Prelude.{
  String, Bool, true, false, some, Option, List, ◌≡◌, refl, All, ℕ_eq, if◌then◌else◌, ◌⊎◌, inl, inr,
}
use proxy_gateway_plus.Tx.{
  TxState, rollback_failed, needs_recovery, schema_version, Image, Meta, Files,
}
use proxy_gateway_plus.Tx.Effect.{World, ◌>>◌, pure, durable}
use proxy_gateway_plus.Tx.Commit.{Env, collect_old}
use proxy_gateway_plus.Tx.Recover.{Report, recovered, closing, discard}
use proxy_gateway_plus.Tx.Rules.{
  Keeps, Keeps-pure, Keeps-bind, Keeps-durable, Keeps-attempt, Spec, Spec-bind, Spec-weaken,
  Spec-Keeps,
}
use proxy_gateway_plus.Tx.Specs.{Spec-pure, Spec-durable}
use proxy_gateway_plus.Tx.Journal.{Imaged, Recoverable, Unchanged}
use proxy_gateway_plus.Tx.Views.{View-discard, View-collect_old}
use proxy_gateway_plus.Tx.Mended.{Held}

-- The files are as before the transaction, or can still be put back.
abbrev pub Sound : Env → Files → World → Type 0
Sound env files w = Unchanged files w ⊎ Recoverable env files w.disk

-- A report of success means that every file is as before.
abbrev pub Told : Env → Files → Report → World → Type 0
Told env files r w = Sound env files w × (r ≡ recovered true → Unchanged files w)

module _ (env : Env) (force : Bool) (files : Files) (m : Meta) (images : List (String × Image))
    (asks : needs_recovery m.state ≡ true) (current : m.version ≡ schema_version)
    (imaged : All (Imaged env files images) m.names) where
  pub Held-Sound : (w : World) → Held files m images w → Sound env files w
  Held-Sound w h = inr (record {
    meta = m;
    images = images;
    saved_is = h.saved_is;
    asks = asks;
    current = current;
    index = h.index;
    imaged = imaged;
    others_kept = h.others_kept;
  })

  -- A failed recovery is recorded, and can be tried again.
  pub Held-failed-Sound :
      (w : World)
      → Held files m images w
      → Sound env files (record w {
        disk = record w.disk { saved = some (record m { state = rollback_failed }) };
      })
  Held-failed-Sound w h = inr (record {
    meta = record m { state = rollback_failed };
    images = images;
    saved_is = refl;
    asks = refl;
    current = current;
    index = h.index;
    imaged = imaged;
    others_kept = h.others_kept;
  })

  pub not_success :
      (r : Report)
      → (r ≡ recovered true → ⊥)
      → (w : World) → Held files m images w
      → Told env files r w
  not_success r other w h = (Held-Sound w h, λ e. absurd (other e))

  -- The removal of other transactions leaves what a recovery needs.
  pub Sound-collect_old : (ok : Bool) → Keeps (Sound env files) (collect_old env ok)
  unfolding collect_old
  Sound-collect_old ok =
      Keeps-bind _ _ (Keeps-attempt _ (Keeps-durable _ (λ w rest h. h) (λ w h. elsewhere w _ h)))
        (λ _. Keeps-pure tt)
    where
      elsewhere :
          (w : World) (rest : List (String × Option TxState))
          → Sound env files w
          → Sound env files (record w { disk = record w.disk { others = rest } })
      elsewhere w rest (inl same) = inl same
      elsewhere w rest (inr r) = inr (record {
        meta = r.meta;
        images = r.images;
        saved_is = r.saved_is;
        asks = r.asks;
        current = r.current;
        index = r.index;
        imaged = r.imaged;
        others_kept = r.others_kept;
      })

  unfoldable pub Ending : Bool → World → Type 0
  Ending ok w = Held files m images w × (ok ≡ true → Unchanged files w)

  pub Spec-Ending :
      (ok : Bool)
      → Spec
          (Ending ok)
          (do
            durable (λ d. record d { saved = some (record m { state = closing env force ok }) })
            if ok then discard else pure tt
            collect_old env ok
            pure (recovered ok))
          (Told env files)
          (Sound env files)
  unfolding Ending closing
  Spec-Ending true =
      Spec-weaken {P₀ = Unchanged files} _
        (Spec-bind _ _
          (Spec-durable {Q = λ _. Unchanged files} _ (λ w rest h. h) (λ w h. h) (λ w h. h)
            (λ w h. h))
          (λ _.
            Spec-bind _ _ (Spec-Keeps _ (View-discard (λ tx now. (p : String) → now p ≡ files p)))
              (λ _.
                Spec-bind _ _
                  (Spec-Keeps _
                    (View-collect_old (λ tx now. (p : String) → now p ≡ files p) env true))
                  (λ _. Spec-pure {Q = λ _. Unchanged files} (recovered true) (λ w h. h)))))
        (λ w h. h.1 refl) (λ r w h. (inl h, λ _. h)) (λ w h. inl h)
  Spec-Ending false =
      Spec-bind {Q = λ _. Sound env files} _ _
        (Spec-durable _
          (λ w rest h. (
            record { saved_is = h.0.saved_is; index = h.0.index; others_kept = h.0.others_kept },
            h.1,
          ))
          (λ w h. Held-failed-Sound w h.0) (λ w h. Held-Sound w h.0)
          (λ w h. Held-failed-Sound w h.0))
        (λ _. Spec-bind {Q = λ _. Sound env files} _ _ (Spec-pure tt (λ w h. h)) (λ _.
          Spec-bind {Q = λ _. Sound env files} _ _ (Spec-Keeps _ (Sound-collect_old false))
            (λ _. Spec-pure (recovered false) (λ w h. (h, λ e. cc)))))
