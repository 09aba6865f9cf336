-- ===== src/Tx/Recovery.antt =====
-- `recover` of deploy/bot/pdgtx.py as a whole, cut off or failing anywhere.
use proxy_gateway_plus.Prelude.{
  String, Bool, true, false, not, ◌&&◌, some, List, ◌≡◌, refl, sym, subst, All, ◌==◌, ℕ_eq,
  if◌then◌else◌, arith, inl, inr, all,
}
use proxy_gateway_plus.Tx.{needs_recovery, schema_version, Image, Meta, Files}
use proxy_gateway_plus.Tx.Effect.{World, Outcome, busy, refused, returned, ◌>>=◌, pure, gets}
use proxy_gateway_plus.Tx.Commit.{Env, Lock, free, held, unusable}
use proxy_gateway_plus.Tx.Recover.{
  Verdict, Report, recovered, finished, other_schema, bad_material, conflict, is_broken, is_drifted,
  steps_of, carry_out, decide, recover_locked, with_lock, recover_from, recover,
}
use proxy_gateway_plus.Tx.Rules.{Ends, Spec, Spec-bind, Spec-weaken}
use proxy_gateway_plus.Tx.Specs.{Spec-pure, Spec-raise, Spec-if}
use proxy_gateway_plus.Tx.Journal.{Imaged, Recoverable, Unchanged}
use proxy_gateway_plus.Tx.Rollback.{back_everywhere}
use proxy_gateway_plus.Tx.Mended.{Separates, Held, Mending, Spec-put_back_all}
use proxy_gateway_plus.Tx.Judge.{
  FairAll, Spec-judge_all, covered_names, as_they_were, Fair-steps_of, Fair-already, Fair-back,
  Fair-undrifted,
}
use proxy_gateway_plus.Tx.Reported.{Sound, Told, Held-Sound, not_success, Ending, Spec-Ending}

module _ (env : Env) (force : Bool) (files : Files) (m : Meta) (images : List (String × Image))
    (asks : needs_recovery m.state ≡ true) (current : m.version ≡ schema_version)
    (imaged : All (Imaged env files images) m.names) (sep : Separates env) where
  all_mended :
      (before : Files) (vs : List Verdict) (w : World)
      → FairAll force files m.names before m.names vs
      → all (λ v. not (is_broken v)) vs ≡ true
      → all (λ v. not (is_drifted v)) vs ≡ true
      → Mending files m images (as_they_were m.names vs) w
      → All (λ s. w.disk.files s.path ≡ files s.path) (steps_of vs)
      → Unchanged files w
  all_mended before vs w f sound kept (h, back) steps p =
      elim (back_everywhere files w.disk.files p m.names
        (Fair-back force files m.names before w.disk.files m.names vs f sound kept back steps)) [
          | inl elsewhere ↦ h.others_kept p elsewhere
          | inr same ↦ same
        ]

  Spec-carry_out :
      (before : Files) (vs : List Verdict)
      → all (λ v. not (is_broken v)) vs ≡ true
      → all (λ v. not (is_drifted v)) vs ≡ true
      → FairAll force files m.names before m.names vs
      → Spec
          (Mending files m images (as_they_were m.names vs))
          (carry_out env force m (steps_of vs))
          (Told env files)
          (Sound env files)
  unfolding carry_out Ending
  Spec-carry_out before vs sound kept f =
      Spec-bind _ _
        (Spec-weaken _
          (Spec-put_back_all files m images (as_they_were m.names vs) (steps_of vs)
            (Fair-steps_of force files m.names before m.names vs f))
          (λ w h. h) (λ ok w h. h) (Held-Sound env force files m images asks current imaged))
        (λ restored.
          Spec-weaken _
            (Spec-Ending env force files m images asks current imaged
              (restored && env.runtime_restored))
            (λ w h.
              (h.0.0, λ ok. all_mended before vs w f sound kept h.0 (h.1 (ground (arith, ok)))))
            (λ r w h. h) (λ w h. h))

  no_drift :
      (now : Files) (vs : List Verdict)
      → (not (all (λ v. not (is_drifted v)) vs) && not force) ≡ false
      → FairAll force files m.names now m.names vs
      → all (λ v. not (is_drifted v)) vs ≡ true
  no_drift now vs kept f = go force refl (all (λ v. not (is_drifted v)) vs) refl
    where
      go :
          (b : Bool)
          → force ≡ b
          → (a : Bool) → all (λ v. not (is_drifted v)) vs ≡ a
          → all (λ v. not (is_drifted v)) vs ≡ true
      go b e true h = h
      go true e false h = Fair-undrifted force files m.names now m.names vs e f
      go false e false h = absurd (ground (arith, kept, e, h))

  Spec-decide :
      (vs : List Verdict)
      → Spec
          (λ w. Held files m images w × FairAll force files m.names w.disk.files m.names vs)
          (decide env force m vs)
          (Told env files)
          (Sound env files)
  unfolding decide
  Spec-decide vs =
      Spec-if (not (all (λ v. not (is_broken v)) vs)) _ _
        (λ _. Spec-pure bad_material (λ w h.
          not_success env force files m images asks current imaged bad_material (λ e. cc) w h.0))
        (λ sound.
          Spec-if _ _ _
            (λ _. Spec-pure conflict (λ w h.
              not_success env force files m images asks current imaged conflict (λ e. cc) w h.0))
            (λ kept. record {
              at = λ w (h, f).
                  (Spec-carry_out w.disk.files vs (ground (arith, sound))
                      (no_drift w.disk.files vs kept f) f).at
                    w (h, Fair-already force files m.names w.disk.files m.names vs f);
            }))

  Spec-recover_locked :
      Spec
        (Held files m images)
        (recover_locked env force m images)
        (Told env files)
        (Sound env files)
  unfolding recover_locked
  Spec-recover_locked =
      Spec-bind _ _
        (Spec-weaken _
          (Spec-judge_all env force files m.names m images sep m.names
            (covered_names m.names m.names (λ p e. e)) imaged)
          (λ w h. h) (λ vs w h. h) (Held-Sound env force files m images asks current imaged))
        Spec-decide

  Spec-with_lock :
      (l : Lock)
      → Spec
          (Held files m images)
          (with_lock env force l (recover_locked env force m images))
          (Told env files)
          (Sound env files)
  unfolding with_lock
  Spec-with_lock free = Spec-recover_locked
  Spec-with_lock held = Spec-raise busy (Held-Sound env force files m images asks current imaged)
  Spec-with_lock unusable =
      Spec-raise refused (Held-Sound env force files m images asks current imaged)

  pub Spec-recover_from :
      Spec
        (Held files m images)
        (recover_from env force (some m) (some images))
        (Told env files)
        (Sound env files)
  unfolding recover_from
  Spec-recover_from =
      Spec-if (not (m.version == schema_version)) (pure other_schema)
        (if not (needs_recovery m.state)
          then pure (finished m.state)
          else with_lock env force env.lock (recover_locked env force m images))
        (λ _. Spec-pure other_schema (λ w h.
          not_success env force files m images asks current imaged other_schema (λ e. cc) w h))
        (λ _.
          Spec-if (not (needs_recovery m.state)) _ _
            (λ _. Spec-pure (finished m.state) (λ w h.
              not_success env force files m images asks current imaged (finished m.state) (λ e. cc)
                w h))
            (λ _. Spec-with_lock env.lock))

Ends-Told :
    (env : Env) (files : Files) (o : Outcome Report) (v : World)
    → Ends (Told env files) (Sound env files) o v
    → Sound env files v × (o ≡ returned (recovered true) → Unchanged files v)
Ends-Told env files (Outcome.returned r) v h = (h.0, λ e. h.1 cc)
Ends-Told env files (Outcome.raised x) v h = (h, λ e. cc)
Ends-Told env files Outcome.cut_off v h = (h, λ e. cc)

-- From a disk that asks for recovery, with or without `force`, however the run ends, cut off at any
-- write or raising at any: the files are as before the transaction or can still be put back, and a
-- report of success means that they are as before. No two contents may share a digest.
pub recover-Sound :
    (env : Env) (force : Bool) (files : Files) (w : World)
    → Separates env
    → Recoverable env files w.disk
    → Sound env files (recover env force w).1
      × ((recover env force w).0 ≡ returned (recovered true)
          → Unchanged files (recover env force w).1)
unfolding recover gets ◌>>=◌
recover-Sound env force files w sep r = Ends-Told env files _ _ (
    subst
      (λ i.
        Ends (Told env files) (Sound env files) (recover_from env force w.disk.saved i w).0
          (recover_from env force w.disk.saved i w).1)
      (sym r.index)
      (subst
        (λ s.
          Ends (Told env files) (Sound env files) (recover_from env force s (some r.images) w).0
            (recover_from env force s (some r.images) w).1)
        (sym r.saved_is)
        ((Spec-recover_from env force files r.meta r.images r.asks r.current r.imaged sep).at w
          (record { saved_is = r.saved_is; index = r.index; others_kept = r.others_kept }))))
