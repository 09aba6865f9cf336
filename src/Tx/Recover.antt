-- ===== src/Tx/Recover.antt =====
-- `recover` of deploy/bot/pdgtx.py: undo an interrupted transaction. All targets are judged before
-- the first is put back.
use proxy_gateway_plus.Prelude.{
  String, Bool, true, false, not, ◌&&◌, Option, none, some, List, [], ◌∷◌, if◌then◌else◌, ◌==◌,
  String_eq, ℕ_eq, Option_eq, all,
}
use proxy_gateway_plus.Tx.{
  TxState, rolled_back, rollback_failed, needs_recovery, schema_version, Image, kept, Meta, Digest,
  Bytes, regular, assoc, write,
}
use proxy_gateway_plus.Tx.Effect.{Run, busy, refused, ◌>>=◌, ◌>>◌, pure, raise, gets, durable}
use proxy_gateway_plus.Tx.Assemble.{read_target, digest_of, unlink, side_file}
use proxy_gateway_plus.Tx.Commit.{Env, Lock, free, held, unusable, attempt, collect_old}

-- One file to put back: its path, the kept contents, and whether a file stands there.
pub record Step : Type 0 where
  pub path : String
  pub bytes : Option Bytes
  pub there : Bool

pub data Verdict : Type 0 where
  already drifted broken : Verdict
  restore : Step → Verdict

pub data Report : Type 0 where
  not_found other_schema no_image : Report
  finished : TxState → Report
  bad_material conflict : Report
  recovered : Bool → Report

-- `m.get("intended_sha", {}).get(name)`
unfoldable pub intended_of : Option (Option Digest) → Option Digest
intended_of none = none
intended_of (some e) = e

unfoldable pub before_digest : Option Image → Option Digest
before_digest (some (kept d digest)) = some digest
before_digest _ = none

unfoldable pub put_back : Step → Run (Unit {0})
put_back step = elim step.bytes [
  | some d ↦ durable (λ k. record k { files = write step.path (regular d) k.files })
  | none ↦ if step.there then unlink step.path else pure tt
]

-- `rmtree` of the candidates and of the before-image, errors ignored.
unfoldable pub discard : Run (Unit {0})
discard = do _ ← attempt side_file; _ ← attempt (durable (λ d. record d { before = none })); pure tt

-- A step that fails is noted, and the others are still made.
unfoldable pub put_back_all : List Step → Run Bool
put_back_all [] = pure true
put_back_all (step ∷ rest) = do
  here ← attempt (put_back step)
  later ← put_back_all rest
  pure (here && later)

unfoldable pub is_broken : Verdict → Bool
is_broken broken = true
is_broken _ = false

unfoldable pub is_drifted : Verdict → Bool
is_drifted drifted = true
is_drifted _ = false

unfoldable pub steps_of : List Verdict → List Step
steps_of [] = []
steps_of (restore step ∷ rest) = step ∷ steps_of rest
steps_of (_ ∷ rest) = steps_of rest

module _ (env : Env) (force : Bool) where
  open env use {sha, resolve, lock, runtime_restored}

  -- The kept copy, read before anything is changed.
  unfoldable pub with_material : Option Image → String → Bool → Verdict
  with_material (some (kept (some d) digest)) path there =
      if sha d == digest
      then restore (record { path = path; bytes = some d; there = there })
      else broken
  with_material (some (kept none digest)) path there = broken
  with_material _ path there = restore (record { path = path; bytes = none; there = there })

  -- Contents that are neither those of before nor those that the transaction wrote are not covered
  -- up, unless `force` says so.
  unfoldable pub judge : Option (Option Digest) → Option Image → String → Option Bytes → Verdict
  judge intended image path cur =
      if digest_of sha cur == before_digest image
      then already
      else if not force && not (digest_of sha cur == intended_of intended)
      then drifted
      else with_material image path (elim cur [ none ↦ false | some _ ↦ true ])

  unfoldable pub judge_resolved :
      Meta → List (String × Image) → String → String → Option String → Run Verdict
  judge_resolved m images name path none = pure broken
  judge_resolved m images name path (some p) = do
    cur ← read_target path
    pure (judge (assoc name m.intended) (assoc name images) path cur)

  unfoldable pub judge_all :
      Meta → List (String × Image) → List (String × String) → Run (List Verdict)
  judge_all m images [] = pure []
  judge_all m images ((name, path) ∷ rest) = do
    here ← judge_resolved m images name path (resolve name)
    later ← judge_all m images rest
    pure (here ∷ later)

  unfoldable pub closing : Bool → TxState
  closing true = rolled_back
  closing false = rollback_failed

  -- The second phase: restore, compare the services, and record the outcome.
  unfoldable pub carry_out : Meta → List Step → Run Report
  carry_out m steps = do
    restored ← put_back_all steps
    durable (λ d. record d {
      saved = some (record m { state = closing (restored && runtime_restored) });
    })
    if restored && runtime_restored then discard else pure tt
    collect_old env (restored && runtime_restored)
    pure (recovered (restored && runtime_restored))

  unfoldable pub decide : Meta → List Verdict → Run Report
  decide m verdicts =
      if not (all (λ v. not (is_broken v)) verdicts)
      then pure bad_material
      else if not (all (λ v. not (is_drifted v)) verdicts) && not force
      then pure conflict
      else carry_out m (steps_of verdicts)

  unfoldable pub recover_locked : Meta → List (String × Image) → Run Report
  recover_locked m images = do verdicts ← judge_all m images m.names; decide m verdicts

  unfoldable pub with_lock : Lock → Run Report → Run Report
  with_lock free m = m
  with_lock held m = raise busy
  with_lock unusable m = raise refused

  unfoldable pub recover_from : Option Meta → Option (List (String × Image)) → Run Report
  recover_from none images = pure not_found
  recover_from (some m) images =
      if not (m.version == schema_version)
      then pure other_schema
      else if not (needs_recovery m.state)
      then pure (finished m.state)
      else elim images [ none ↦ pure no_image | some i ↦ with_lock lock (recover_locked m i) ]

  -- `recover`
  unfoldable pub recover : Run Report
  recover = do
    saved ← gets (λ w. w.disk.saved)
    images ← gets (λ w. w.disk.before)
    recover_from saved images
