-- ===== src/Tx/Outdated.antt =====
-- `Tx.commit` of deploy/bot/pdgtx.py on a file that was changed since it was read.
use proxy_gateway_plus.Prelude.{
  String, Bool, true, false, not, ◌&&◌, ◌||◌, Option, List, [], ◌∷◌, ◌≡◌, refl, sym, ◌∙◌, ap, subst,
  ◌==◌, String_eq, Option_eq, all, inl, inr,
}
use proxy_gateway_plus.Tx.{validated, Watch, Files, Digest, Bytes}
use proxy_gateway_plus.Tx.Action.{action_conflicts}
use proxy_gateway_plus.Tx.Effect.{Tx, World, Run, busy, refused, ◌>>◌, raise, require}
use proxy_gateway_plus.Tx.Assemble.{digest_of, side_file, set_state}
use proxy_gateway_plus.Tx.Commit.{
  Env, Lock, free, held, unusable, for_each, check_guard, check_target, check_watch, is_repair,
  validate_one, prepare, commit_locked, commit,
}
use proxy_gateway_plus.Tx.Rules.{
  Keeps, Ends, Spec, Spec-bind, Spec-weaken, Spec-Keeps, Spec-at, Keeps-for_each, Keeps-require,
}
use proxy_gateway_plus.Tx.Specs.{
  entry_of, Spec-raise, Spec-gets, Spec-require, Spec-read_target, Spec-handle,
}
use proxy_gateway_plus.Tx.Views.{View}
use proxy_gateway_plus.Tx.Prepare.{Keeps-check_target, Keeps-check_watch}
use proxy_gateway_plus.Tx.Quiet.{Quiet, Keeps-derive_one, Keeps-give_up}
use proxy_gateway_plus.Tx.Drift.{Some}

-- What is read at the path does not have this digest.
abbrev pub Differs : Env → Files → String → Option Digest → Type 0
Differs env now path expect =
    (cur : Option Bytes) → now path ≡ entry_of cur → (digest_of env.sha cur == expect) ≡ false

module _ (env : Env) where
  -- A watched file is no longer what the candidates were made from.
  abbrev pub Outdated : Files → Watch → Type 0
  Outdated now w = Differs env now w.path w.digest

  module _ (files : Files) (watches : List Watch) where
    abbrev Looked : Tx → Files → Type 0
    Looked tx now = (now ≡ files) × (tx.watches ≡ watches)

    kept :
        {A : Type 0} (m : Run A)
        → Keeps (View Looked) m
        → Spec (View Looked) m (λ _. View Looked) (View Looked)
    kept m k = Spec-Keeps m k

    Looked-Quiet : Quiet env (λ _. Unit) (View Looked)
    Looked-Quiet = record {
      blind = λ w rest h. h;
      progress = λ w images intended h. h;
      entered = λ w s _ h. h;
      staged = λ w t r h. h;
      saved = λ w h. h;
      index = λ w b h. h;
      collected = λ w kept h. h;
    }

    Spec-check_watch :
        (w : Watch)
        → Outdated files w
        → Spec (View Looked) (check_watch env w) (λ _ _. ⊥) (View Looked)
    unfolding check_watch
    Spec-check_watch w old = Spec-bind _ _ (Spec-read_target w.path) (λ cur. record {
      at = λ v h.
          refused_by (digest_of env.sha cur == w.digest) v h.0
            (old cur (ap (λ f. f w.path) (sym h.0.0) ∙ h.1));
    })
      where
        refused_by :
            (b : Bool) (v : World)
            → View Looked v
            → b ≡ false
            → Ends (λ _ _. ⊥) (View Looked) (require b refused v).0 (require b refused v).1
        refused_by true v h e = cc
        refused_by false v h e = unfold require in h

    -- The loop over the watched files does not get past one that is outdated.
    Spec-check_watches :
        (ws : List Watch)
        → Some (Outdated files) ws
        → Spec (View Looked) (for_each ws (check_watch env)) (λ _ _. ⊥) (View Looked)
    unfolding for_each
    Spec-check_watches [] s = absurd s
    Spec-check_watches (w ∷ ws) (inl old) =
        Spec-bind _ _ (Spec-check_watch w old) (λ _. record { at = λ v b. absurd b })
    Spec-check_watches (w ∷ ws) (inr s) =
        Spec-bind _ _ (kept _ (look w)) (λ _. Spec-check_watches ws s)
      where
        look : (v : Watch) → Keeps (View Looked) (check_watch env v)
        look v = Keeps-check_watch env v

    -- The checks after the derivers, on a transaction with these watches.
    Spec-checks :
        (tx : Tx) (rest : Run (Unit {0}))
        → tx.watches ≡ watches
        → Some (Outdated files) watches
        → Spec
            (View Looked)
            (do
              require (not (all (λ _. false) tx.targets && all (λ _. false) tx.actions)) refused
              require (not (action_conflicts tx.actions)) refused
              for_each tx.guards (check_guard env)
              require (is_repair env tx.mode || all (λ c. c.1) env.base) refused
              for_each tx.targets (check_target env)
              for_each tx.watches (check_watch env)
              rest)
            (λ _ _. ⊥)
            (View Looked)
    unfolding check_guard
    Spec-checks tx rest same s =
        Spec-bind _ _ (Spec-require {Q = λ _. View Looked} _ _ (λ _ w h. h) (λ w h. h)) (λ _.
          Spec-bind _ _ (Spec-require {Q = λ _. View Looked} _ _ (λ _ w h. h) (λ w h. h)) (λ _.
            Spec-bind _ _ (kept _ (Keeps-for_each _ _ (λ g. Keeps-require _ _))) (λ _.
              Spec-bind _ _ (Spec-require {Q = λ _. View Looked} _ _ (λ _ w h. h) (λ w h. h)) (λ _.
                Spec-bind _ _ (kept _ (Keeps-for_each _ _ (Keeps-check_target env))) (λ _.
                  Spec-bind _ _
                    (Spec-check_watches tx.watches (subst (Some (Outdated files)) (sym same) s))
                    (λ _. record { at = λ w b. absurd b }))))))

    Spec-prepare-Outdated :
        Some (Outdated files) watches → Spec (View Looked) (prepare env) (λ _ _. ⊥) (View Looked)
    unfolding prepare
    Spec-prepare-Outdated s =
        Spec-bind _ _ (Spec-gets {Q = λ _. View Looked} _ (λ w h. h)) (λ pending.
          Spec-bind _ _ (Spec-require {Q = λ _. View Looked} _ _ (λ _ w h. h) (λ w h. h)) (λ _.
            Spec-bind _ _ (kept _ (Keeps-for_each _ _ (Keeps-derive_one env _ _ Looked-Quiet)))
              (λ _.
                Spec-bind _ _
                  (Spec-gets {Q = λ tx w. View Looked w × (tx.watches ≡ watches)} _
                    (λ w h. (h, h.1)))
                  (λ tx. record {
                    at = λ w (h, same).
                        (Spec-checks tx
                            (do
                              for_each tx.targets (validate_one env)
                              side_file
                              set_state validated)
                            same s).at
                          w h;
                  }))))

    abbrev OnlyFiles : Tx → Files → Type 0
    OnlyFiles tx now = now ≡ files

    OnlyFiles-Quiet : Quiet env (λ _. Unit) (View OnlyFiles)
    OnlyFiles-Quiet = record {
      blind = λ w rest h. h;
      progress = λ w images intended h. h;
      entered = λ w s _ h. h;
      staged = λ w t r h. h;
      saved = λ w h. h;
      index = λ w b h. h;
      collected = λ w kept h. h;
    }

    Spec-commit-Outdated :
        Some (Outdated files) watches
        → Spec (View Looked) (commit env) (λ _. View OnlyFiles) (View OnlyFiles)
    unfolding commit commit_locked
    Spec-commit-Outdated s =
        Spec-handle {C₀ = View OnlyFiles} _ _ (locked env.lock)
          (λ e. Spec-Keeps _ (Keeps-give_up env _ _ OnlyFiles-Quiet tt e)) (λ w h. h)
      where
        locked :
            (l : Lock)
            → Spec
                (View Looked)
                (elim l [ free ↦ commit_locked env | held ↦ raise busy | unusable ↦ raise refused ])
                (λ _. View OnlyFiles)
                (View OnlyFiles)
        locked free =
            Spec-bind _ _
              (Spec-weaken {Q = λ _ _. ⊥} _ (Spec-prepare-Outdated s) (λ w h. h) (λ _ w b. b)
                (λ w h. h.0))
              (λ _. record { at = λ w b. absurd b })
        locked held = Spec-raise busy (λ w h. h.0)
        locked unusable = Spec-raise refused (λ w h. h.0)

-- Where a file that the transaction watches does not have the recorded digest any more, a commit
-- leaves every production file as it is, whatever the derivers do and whatever fails on the way.
pub commit-Outdated :
    (env : Env) (w : World)
    → Some (Outdated env w.disk.files) w.tx.watches
    → (commit env w).1.disk.files ≡ w.disk.files
commit-Outdated env w s =
    Spec-at {P = View (Looked env w.disk.files w.tx.watches)}
      {C = View (OnlyFiles env w.disk.files w.tx.watches)} (commit env) w
      (Spec-commit-Outdated env w.disk.files w.tx.watches s) (refl, refl)
