-- ===== src/Tx/Writes.antt =====
-- What a commit of deploy/bot/pdgtx.py may change without losing what recovery needs.
use proxy_gateway_plus.Prelude.{
  String, true, some, List, [], ◌∷◌, ◌≡◌, ◌≢◌, refl, ◌∙◌, ap, subst, All, String_eq, if◌then◌else◌,
  ==_ne, ==_refl,
}
use proxy_gateway_plus.Tx.{TxState, needs_recovery, Target, Image, Files, Entry, write}
use proxy_gateway_plus.Tx.Effect.{Fate, Tx, World}
use proxy_gateway_plus.Tx.Assemble.{save_meta, set_state, meta_of}
use proxy_gateway_plus.Tx.Commit.{Env}
use proxy_gateway_plus.Tx.Rules.{Spec, Spec-bind}
use proxy_gateway_plus.Tx.Specs.{Spec-gets, Spec-modify, Spec-require, Spec-durable}
use proxy_gateway_plus.Tx.Journal.{Elsewhere, names_of, Journaled}

-- A path of none of the targets is not this target's.
abbrev pub Covered : List Target → Target → Type 0
Covered targets t = (p : String) → Elsewhere p (names_of targets) → t.path ≢ p

Covered-each :
    (targets ts : List Target)
    → ((p : String) → Elsewhere p (names_of targets) → Elsewhere p (names_of ts))
    → All (Covered targets) ts
Covered-each targets [] h = tt
Covered-each targets (t ∷ ts) h = ((λ p e. (h p e).0), Covered-each targets ts (λ p e. (h p e).1))

pub Covered-self : (targets : List Target) → All (Covered targets) targets
Covered-self targets = Covered-each targets targets (λ p e. e)

pub write-other : (p q : String) (e : Entry) (files : Files) → p ≢ q → write p e files q ≡ files q
write-other p q e files h = ap (λ b. if b then e else files q) (==_ne p q h)

pub write-same : (p : String) (e : Entry) (files : Files) → write p e files p ≡ e
write-same p e files = ap (λ b. if b then e else files p) (==_refl p)

module _ (env : Env) (files : Files) (targets : List Target) (images : List (String × Image)) where
  abbrev Started : World → Type 0
  Started = Journaled env files targets images

  pub Journaled-fates :
      (w : World) (rest : List Fate) → Started w → Started (record w { fates = rest })
  Journaled-fates w rest j = record {
    targets_are = j.targets_are;
    images_are = j.images_are;
    live = j.live;
    index = j.index;
    journal = j.journal;
    imaged = j.imaged;
    others_kept = j.others_kept;
  }

  pub Journaled-write :
      (t : Target) (e : Entry) (w : World)
      → Covered targets t
      → Started w
      → Started (record w { disk = record w.disk { files = write t.path e w.disk.files } })
  Journaled-write t e w covered j = record {
    targets_are = j.targets_are;
    images_are = j.images_are;
    live = j.live;
    index = j.index;
    journal = j.journal;
    imaged = j.imaged;
    others_kept = λ p elsewhere.
        write-other t.path p e w.disk.files (covered p elsewhere) ∙ j.others_kept p elsewhere;
  }

  -- A rewritten meta.json records the state that the transaction is in.
  pub Journaled-saved :
      (tx : Tx) (w : World)
      → w.tx ≡ tx
      → Started w
      → Started (record w { disk = record w.disk { saved = some (meta_of tx) } })
  unfolding meta_of
  Journaled-saved tx w same j = record {
    targets_are = j.targets_are;
    images_are = j.images_are;
    live = j.live;
    index = j.index;
    journal = (
      meta_of tx,
      refl,
      subst (λ x. needs_recovery x.state ≡ true) same j.live,
      subst (λ (x : Tx). names_of x.targets ≡ names_of targets) same (ap names_of j.targets_are),
      refl,
    );
    imaged = j.imaged;
    others_kept = j.others_kept;
  }

  pub Spec-save_meta : Spec Started save_meta (λ _. Started) Started
  unfolding save_meta
  Spec-save_meta =
      Spec-bind _ _ (Spec-gets {Q = λ tx w. Started w × (w.tx ≡ tx)} _ (λ w h. (h, refl))) (λ tx.
        Spec-durable _ (λ w rest (h, same). (Journaled-fates w rest h, same))
          (λ w (h, same). Journaled-saved tx w same h) (λ w h. h.0)
          (λ w (h, same). Journaled-saved tx w same h))

  pub Journaled-state :
      (s : TxState)
      → needs_recovery s ≡ true
      → (w : World) → Started w
      → Started (record w { tx = record w.tx { state = s } })
  Journaled-state s live w j = record {
    targets_are = j.targets_are;
    images_are = j.images_are;
    live = live;
    index = j.index;
    journal = j.journal;
    imaged = j.imaged;
    others_kept = j.others_kept;
  }

  -- Such changes of state keep the record valid.
  pub Spec-set_state :
      (s : TxState) → needs_recovery s ≡ true → Spec Started (set_state s) (λ _. Started) Started
  unfolding set_state
  Spec-set_state s live = Spec-bind _ _ (Spec-gets {Q = λ _. Started} _ (λ w h. h)) (λ state.
      Spec-bind _ _ (Spec-require {Q = λ _. Started} _ _ (λ _ w h. h) (λ w h. h)) (λ _.
        Spec-bind _ _ (Spec-modify {Q = λ _. Started} _ (Journaled-state s live))
          (λ _. Spec-save_meta)))
