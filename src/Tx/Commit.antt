-- ===== src/Tx/Commit.antt =====
-- `Tx.commit` of deploy/bot/pdgtx.py: checks, write-ahead record, application, judgement and
-- rollback, against a disk on which every write may fail or be the last.
pub mod Outside
pub mod Ends
pub mod Rollback
use proxy_gateway_plus.Prelude.{
  String, Bool, true, false, not, ◌&&◌, ◌||◌, Option, none, some, List, [], ◌∷◌, map, if◌then◌else◌,
  ◌==◌, String_eq, Option_eq, all,
}
use proxy_gateway_plus.Tx.{
  validated, applying, observing, committed, Target, Watch, Mode, normal, repair, Image, missing,
  kept, Bytes, regular, write,
}
use proxy_gateway_plus.Tx.Action.{Action, Want, action_conflicts, expected_states}
use proxy_gateway_plus.Tx.Listing.{pending_recovery}
use proxy_gateway_plus.Tx.Observe.{services, units_hold, not_worse}
use proxy_gateway_plus.Tx.Effect.{
  ◌>>=◌, ◌>>◌, Run, busy, refused, apply_failed, pure, raise, catch, gets, modify, require, durable,
}
use proxy_gateway_plus.Tx.Assemble.{
  read_target, unlink, save_meta, set_state, digest_of, side_file, stage_derived,
}
pub use proxy_gateway_plus.Tx.Commit.Outside.{
  Lock, free, held, unusable, Derived, produced, nothing, refuses, fails, Env, want_text,
}
unfoldable pub use proxy_gateway_plus.Tx.Commit.Outside.{for_each, attempt}
unfoldable pub use proxy_gateway_plus.Tx.Commit.Ends.{
  note_leftovers, cleanup, abort, abort_unstarted, give_up, collect_old, wind_up,
}
unfoldable pub use proxy_gateway_plus.Tx.Commit.Rollback.{
  restore_from, restore_one, restore_all, is_restored, verify_all, rollback,
}

module _ (env : Env) where
  open env use {
    sha, resolve, lock, derivers, unit_state, base, after, verdicts, units_known, act, stable,
  }

  unfoldable pub derive_one : String × (List (String × Option Bytes) → Derived) → Run (Unit {0})
  derive_one (target, fn) = do
    targets ← gets (λ w. w.tx.targets)
    elim (fn (map (λ (t : Target). (t.name, t.content)) targets)) [
      | produced d ↦ stage_derived sha resolve target d
      | _ ↦ raise refused
    ]

  unfoldable pub check_guard : String × Want → Run (Unit {0})
  check_guard (unit, expect) =
      require (elim (unit_state unit) [ none ↦ false | some s ↦ s == want_text expect ]) refused

  -- The target still has the contents that the candidate was based on.
  unfoldable pub check_target : Target → Run (Unit {0})
  check_target t = do cur ← read_target t.path; require (digest_of sha cur == t.expect) refused

  unfoldable pub check_watch : Watch → Run (Unit {0})
  check_watch w = do cur ← read_target w.path; require (digest_of sha cur == w.digest) refused

  -- The validators of a target run in turn, and each outcome is recorded.
  unfoldable pub validated_as : Bool → Run (Unit {0})
  validated_as ok = do save_meta; require ok refused

  unfoldable pub validate_one : Target → Run (Unit {0})
  validate_one t = elim t.content [ none ↦ pure tt | some _ ↦ for_each (verdicts t) validated_as ]

  unfoldable pub is_repair : Mode → Bool
  is_repair normal = false
  is_repair repair = true

  -- Steps 0 to 4 of `_commit_locked`: nothing here writes a production file.
  unfoldable pub prepare : Run (Unit {0})
  prepare = do
    pending ← gets (λ w. pending_recovery none w.disk.others)
    require (all (λ _. false) pending) refused
    for_each derivers derive_one
    tx ← gets (λ w. w.tx)
    require (not (all (λ _. false) tx.targets && all (λ _. false) tx.actions)) refused
    require (not (action_conflicts tx.actions)) refused
    for_each tx.guards check_guard
    require (is_repair tx.mode || all (λ c. c.1) base) refused
    for_each tx.targets check_target
    for_each tx.watches check_watch
    for_each tx.targets validate_one
    side_file
    set_state validated

  unfoldable pub image_of : Option Bytes → Image
  image_of none = missing
  image_of (some d) = kept (some d) (sha d)

  -- One file of the before-image.
  unfoldable pub keep_one : Target → Run (Unit {0})
  keep_one t = do
    cur ← read_target t.path
    elim cur [ none ↦ pure tt | some _ ↦ side_file ]
    modify (λ tx. record tx { images = (t.name, image_of cur) ∷ tx.images })

  -- `_save_before`: the index is written last, then the digests that are about to be written.
  unfoldable pub save_before : Run (Unit {0})
  save_before = do
    modify (λ tx. record tx { images = [] })
    targets ← gets (λ w. w.tx.targets)
    for_each targets keep_one
    require units_known refused
    images ← gets (λ w. w.tx.images)
    durable (λ d. record d { before = some images })
    modify (λ tx. record tx {
      intended = map (λ (t : Target). (t.name, digest_of sha t.content)) tx.targets;
    })
    save_meta

  -- `_apply_one`
  unfoldable pub apply_one : Target → Run (Unit {0})
  apply_one t = elim t.content [
    | some d ↦ durable (λ k. record k { files = write t.path (regular d) k.files })
    | none ↦ if t.existed then unlink t.path else pure tt
  ]

  -- `_do_actions` stops at the first action that fails.
  unfoldable pub do_action : Action → Run (Unit {0})
  do_action a = require (act a) apply_failed

  -- `_observe`: the units first, then what the checks say.
  unfoldable pub judge_run : Run (Unit {0})
  judge_run = do
    tx ← gets (λ w. w.tx)
    require
        (units_hold stable base (expected_states tx.actions)
          (services tx.targets tx.actions tx.guards))
        apply_failed
    save_meta
    require (not_worse base after) apply_failed

  unfoldable pub apply_all : Run (Unit {0})
  apply_all = do
    targets ← gets (λ w. w.tx.targets)
    for_each targets apply_one
    save_meta
    actions ← gets (λ w. w.tx.actions)
    for_each actions do_action
    set_state observing
    judge_run

  unfoldable pub finish : Run (Unit {0})
  finish = do set_state committed; save_meta; wind_up env

  -- Steps 5 and 6 of `_commit_locked`; a failure before APPLYING refuses.
  unfoldable pub record_before : Run (Unit {0})
  record_before = catch save_before (λ _. raise refused)

  unfoldable pub execute : Run (Unit {0})
  execute = do
    set_state applying
    applied ← catch (do apply_all; pure true) (λ _. (do rollback env; pure false))
    if applied then finish else pure tt

  unfoldable pub commit_locked : Run (Unit {0})
  commit_locked = do prepare; record_before; execute

  -- `commit`: the lock is held for the whole of `_commit_locked`.
  unfoldable pub commit : Run (Unit {0})
  commit =
      catch (elim lock [ free ↦ commit_locked | held ↦ raise busy | unusable ↦ raise refused ])
        give_up
