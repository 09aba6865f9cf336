-- ===== src/Tx/Apply.antt =====
-- The application of a transaction in `Tx._commit_locked` of deploy/bot/pdgtx.py: what it may do to the disk.
use proxy_gateway_plus.Prelude.{
  String, true, Option, none, some, List, [], ◌∷◌, ◌≡◌, refl, sym, ap, subst, All, String_eq,
  if◌then◌else◌, inl,
}
use proxy_gateway_plus.Tx.{
  applying, observing, needs_recovery, Target, Image, Files, Bytes, Entry, absent, regular, write,
}
use proxy_gateway_plus.Tx.Effect.{Tx, World, pure, durable}
use proxy_gateway_plus.Tx.Assemble.{save_meta, set_state, meta_of, unlink}
use proxy_gateway_plus.Tx.Commit.{Env, for_each, apply_one, do_action, judge_run, apply_all}
use proxy_gateway_plus.Tx.Rules.{
  Keeps, Spec, Spec-bind, Spec-Keeps, Keeps-pure, Keeps-if, Keeps-durable, Keeps-for_each,
  Keeps-require, Keeps-gets, Keeps-bind,
}
use proxy_gateway_plus.Tx.Specs.{
  Spec-gets, Spec-modify, Spec-require, Spec-durable, Keeps-for_each_in,
}
use proxy_gateway_plus.Tx.Before.{Ready}
use proxy_gateway_plus.Tx.Journal.{names_of, Journaled, Settled}
use proxy_gateway_plus.Tx.Writes.{
  Covered, Covered-self, Journaled-fates, Journaled-write, Spec-save_meta, Spec-set_state,
}

module _ (env : Env) (files : Files) (targets : List Target) (images : List (String × Image)) where
  abbrev Started : World → Type 0
  Started = Journaled env files targets images

  Keeps-write :
      (t : Target) (e : Entry)
      → Covered targets t
      → Keeps Started (durable (λ k. record k { files = write t.path e k.files }))
  Keeps-write t e covered =
      Keeps-durable _ (Journaled-fates env files targets images)
        (λ w j. Journaled-write env files targets images t e w covered j)

  Keeps-unlink : (t : Target) → Covered targets t → Keeps Started (unlink t.path)
  unfolding unlink
  Keeps-unlink t covered =
      Keeps-bind _ _ (Keeps-gets _)
        (λ there. Keeps-bind _ _ (Keeps-require _ _) (λ _. Keeps-write t absent covered))

  Keeps-apply_one : (t : Target) → Covered targets t → Keeps Started (apply_one env t)
  unfolding apply_one
  Keeps-apply_one t covered = go t.content
    where
      go :
          (c : Option Bytes)
          → Keeps Started (elim c [
            | some d ↦ durable (λ k. record k { files = write t.path (regular d) k.files })
            | none ↦ if t.existed then unlink t.path else pure tt
          ])
      go (some d) = Keeps-write t (regular d) covered
      go none = Keeps-if t.existed _ _ (Keeps-unlink t covered) (Keeps-pure tt)

  apply_targets :
      (ts : List Target) → All (Covered targets) ts → All (λ t. Keeps Started (apply_one env t)) ts
  apply_targets [] _ = tt
  apply_targets (t ∷ ts) (c, cs) = (Keeps-apply_one t c, apply_targets ts cs)

  Spec-apply_targets :
      (ts : List Target)
      → Spec (λ w. Started w × (ts ≡ targets)) (for_each ts (apply_one env)) (λ _. Started) Started
  Spec-apply_targets ts = record {
    at = λ w (h, same).
        (Spec-Keeps _ (
            Keeps-for_each_in ts (apply_one env) (
              apply_targets ts
                (subst (All (Covered targets)) (sym same) (Covered-self targets))))).at
          w h;
  }

  -- Applying, at whatever point it stops, leaves a record from which to go back.
  pub Spec-apply_all : Spec Started (apply_all env) (λ _. Started) Started
  unfolding apply_all do_action judge_run
  Spec-apply_all =
      Spec-bind _ _
        (Spec-gets {Q = λ ts w. Started w × (ts ≡ targets)} _ (λ w h. (h, h.targets_are)))
        (λ ts. Spec-bind _ _ (Spec-apply_targets ts) (λ _.
          Spec-bind _ _ (Spec-save_meta env files targets images) (λ _.
            Spec-bind _ _ (Spec-gets {Q = λ _. Started} _ (λ w h. h)) (λ actions.
              Spec-bind _ _ (Spec-Keeps _ (Keeps-for_each actions _ (λ a. Keeps-require _ _))) (λ _.
                Spec-bind _ _ ((Spec-set_state env files targets images) observing refl) (λ _.
                  Spec-bind _ _ (Spec-gets {Q = λ _. Started} _ (λ w h. h)) (λ tx.
                    Spec-bind _ _ (Spec-Keeps _ (Keeps-require _ _)) (λ _.
                      Spec-bind _ _ (Spec-save_meta env files targets images)
                        (λ _. Spec-Keeps _ (Keeps-require _ _))))))))))

  -- The change to APPLYING: until it is on the disk, no production file has been touched.
  pub Spec-start :
      Spec (Ready env files targets images) (set_state applying) (λ _. Started) (Settled env files)
  unfolding set_state save_meta meta_of
  Spec-start =
      Spec-bind _ _ (Spec-gets {Q = λ _. Ready env files targets images} _ (λ w h. h)) (λ state.
        Spec-bind _ _
          (Spec-require {Q = λ _. Ready env files targets images} _ _ (λ _ w h. h)
            (λ w h. inl (same h)))
          (λ _.
            Spec-bind _ _
              (Spec-modify {Q = λ _ w. Ready env files targets images w × (w.tx.state ≡ applying)} _
                (λ w h. (
                  record {
                    files_are = h.files_are;
                    targets_are = h.targets_are;
                    images_are = h.images_are;
                    index = h.index;
                    imaged = h.imaged;
                  },
                  refl,
                )))
              (λ _.
                Spec-bind _ _
                  (Spec-gets
                    {Q = λ tx w.
                      Ready env files targets images w × (w.tx.state ≡ applying) × (w.tx ≡ tx)}
                    _ (λ w h. (h.0, h.1, refl)))
                  (λ tx.
                    Spec-durable _
                      (λ w rest h. (
                        record {
                          files_are = h.0.files_are;
                          targets_are = h.0.targets_are;
                          images_are = h.0.images_are;
                          index = h.0.index;
                          imaged = h.0.imaged;
                        },
                        h.1,
                        h.2,
                      ))
                      (λ w h. written tx w h.0 h.1 h.2) (λ w h. inl (same h.0))
                      (λ w h. inl (same h.0))))))
    where
      same :
          {w : World} → Ready env files targets images w → (p : String) → w.disk.files p ≡ files p
      same h p = ap (λ f. f p) h.files_are

      written :
          (tx : Tx) (w : World)
          → Ready env files targets images w
          → w.tx.state ≡ applying
          → w.tx ≡ tx
          → Started (record w { disk = record w.disk { saved = some (meta_of tx) } })
      written tx w h st e = record {
        targets_are = h.targets_are;
        images_are = h.images_are;
        live = ap needs_recovery st;
        index = h.index;
        journal = (
          meta_of tx,
          refl,
          subst (λ x. needs_recovery x.state ≡ true) e (ap needs_recovery st),
          subst (λ (x : Tx). names_of x.targets ≡ names_of targets) e (ap names_of h.targets_are),
          refl,
        );
        imaged = h.imaged;
        others_kept = λ p _. ap (λ f. f p) h.files_are;
      }
