-- ===== src/Tx/Before.antt =====
-- `Tx._save_before` of deploy/bot/pdgtx.py: the index of the before-image is written when every
-- target has its entry.
use proxy_gateway_plus.Prelude.{String, some, List, [], ◌≡◌, refl, sym, subst, All, String_eq}
use proxy_gateway_plus.Tx.{Target, Image, Files}
use proxy_gateway_plus.Tx.Effect.{Fate, Tx, World, durable, refused}
use proxy_gateway_plus.Tx.Assemble.{save_meta, meta_of}
use proxy_gateway_plus.Tx.Commit.{Env, for_each, keep_one, save_before, record_before}
use proxy_gateway_plus.Tx.Rules.{Spec, Spec-bind, Spec-weaken}
use proxy_gateway_plus.Tx.Specs.{
  Spec-raise, Spec-gets, Spec-catch, Spec-modify, Spec-require, Spec-durable,
}
use proxy_gateway_plus.Tx.Prepare.{Resolved}
use proxy_gateway_plus.Tx.Journal.{Imaged, names_of}
use proxy_gateway_plus.Tx.Filled.{Aimed, Filled-for_each}

-- The before-image is complete and on the disk.
pub record Ready (env : Env) (files : Files) (targets : List Target)
    (images : List (String × Image)) (w : World) : Type 0 where
  pub files_are : w.disk.files ≡ files
  pub targets_are : w.tx.targets ≡ targets
  pub images_are : w.tx.images ≡ images
  pub index : w.disk.before ≡ some images
  pub imaged : All (Imaged env files images) (names_of targets)

module _ (env : Env) (files : Files) where
  -- Either the whole before-image is written, or no production file has been touched.
  pub Spec-save_before :
      (targets : List Target)
      → All (Resolved env) targets
      → Spec
          (Aimed env files targets)
          (save_before env)
          (λ _ w. (images : List (String × Image)) × Ready env files targets images w)
          (Aimed env files targets)
  unfolding save_before save_meta
  Spec-save_before targets rs =
      Spec-bind _ _ (Spec-modify {Q = λ _. Aimed env files targets} _ (λ w h. h)) (λ _.
        Spec-bind _ _
          (Spec-gets {Q = λ ts w. Aimed env files targets w × (ts ≡ targets)} _ (λ w h. (h, h.1)))
          (λ ts. Spec-bind _ _ (loop ts) (λ _.
            Spec-bind _ _ (Spec-require {Q = λ _. Full} _ _ (λ _ w h. h) (λ w h. h.0)) (λ _.
              Spec-bind _ _
                (Spec-gets {Q = λ images w. Full w × (w.tx.images ≡ images)} _ (λ w h. (h, refl)))
                (λ images.
                  Spec-bind _ _
                    (Spec-durable {Q = λ _. Ready env files targets images} _ (λ w rest h. h)
                      (λ w (h, same). record {
                        files_are = h.0.0;
                        targets_are = h.0.1;
                        images_are = same;
                        index = refl;
                        imaged = subst (λ i. All (Imaged env files i) (names_of targets)) same h.1;
                      })
                      (λ w h. h.0.0) (λ w h. h.0.0))
                    (λ _.
                      Spec-bind _ _
                        (Spec-modify {Q = λ _. Ready env files targets images} _ (λ w h. record {
                          files_are = h.files_are;
                          targets_are = h.targets_are;
                          images_are = h.images_are;
                          index = h.index;
                          imaged = h.imaged;
                        }))
                        (λ _.
                          Spec-bind _ _
                            (Spec-gets {Q = λ _. Ready env files targets images} _ (λ w h. h))
                            (λ tx. saved images tx))))))))
    where
      Full : World → Type 0
      Full w = Aimed env files targets w × All (Imaged env files w.tx.images) (names_of targets)

      loop :
          (ts : List Target)
          → Spec
              (λ w. Aimed env files targets w × (ts ≡ targets))
              (for_each ts (keep_one env))
              (λ _. Full)
              (Aimed env files targets)
      loop ts = record {
        at = λ w (h, same).
            (Spec-weaken {P = Aimed env files targets} {Q = λ _. Full} _
                (Filled-for_each env files targets [] ts (subst (All (Resolved env)) (sym same) rs))
                (λ w h. record { aimed = h; named = tt; entries = tt })
                (λ _ v f. (
                  f.0.aimed,
                  subst (λ u. All (Imaged env files v.tx.images) (names_of u)) same f.1,
                ))
                (λ w h. h)).at
              w h;
      }

      saved :
          (images : List (String × Image)) (tx : Tx)
          → Spec
              (Ready env files targets images)
              (durable (λ d. record d { saved = some (meta_of tx) }))
              (λ _ w. (i : List (String × Image)) × Ready env files targets i w)
              (Aimed env files targets)
      saved images tx =
          Spec-durable _ (λ w rest h. same_files w rest h)
            (λ w h. (
              images,
              record {
                files_are = h.files_are;
                targets_are = h.targets_are;
                images_are = h.images_are;
                index = h.index;
                imaged = h.imaged;
              },
            ))
            (λ w h. (h.files_are, h.targets_are)) (λ w h. (h.files_are, h.targets_are))
        where
          same_files :
              (w : World) (rest : List Fate)
              → Ready env files targets images w
              → Ready env files targets images (record w { fates = rest })
          same_files w rest h = record {
            files_are = h.files_are;
            targets_are = h.targets_are;
            images_are = h.images_are;
            index = h.index;
            imaged = h.imaged;
          }

  pub Spec-record_before :
      (targets : List Target)
      → All (Resolved env) targets
      → Spec
          (Aimed env files targets)
          (record_before env)
          (λ _ w. (images : List (String × Image)) × Ready env files targets images w)
          (Aimed env files targets)
  unfolding record_before
  Spec-record_before targets rs =
      Spec-catch _ _ (Spec-save_before targets rs) (λ _. Spec-raise refused (λ w h. h))
