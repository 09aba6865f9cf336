-- ===== src/Tx/Tests.antt =====
-- Runs of the configuration transaction on small inputs, and the theorems at concrete inputs.
use proxy_gateway_plus.Prelude.{
  ap, subst, inl, contains, String, true, false, none, some, List, [], ◌∷◌, ◌≡◌, refl, String_eq,
  Option_eq, ◌==◌, option_beq, take,
}
use proxy_gateway_plus.Tx.{Watch, Entry, applying, committed, rolled_back, allowed, regular, write}
use proxy_gateway_plus.Tx.Action.{
  Action, restart, start, stop, action_conflicts, conflicts_from, conflicts_step, wants, clashes,
}
use proxy_gateway_plus.Tx.Effect.{
  World, returned, ◌>>=◌, pure, catch, gets, modify, require, durable, durable_at,
}
use proxy_gateway_plus.Tx.Assemble.{
  read_target, read_entry, save_meta, set_state, meta_of, side_file,
}
use proxy_gateway_plus.Tx.Observe.{
  unit_of, target_service, units_hold, not_worse, services, add_unit, target_units, action_units,
  guard_units,
}
use proxy_gateway_plus.Tx.Commit.{
  for_each, attempt, prepare, check_target, validate_one, validated_as, is_repair, image_of,
  keep_one, save_before, apply_one, apply_all, record_before, execute, commit_locked, commit,
  do_action, judge_run, collect_old, wind_up, finish, cleanup, note_leftovers,
}
use proxy_gateway_plus.Tx.Journal.{Unchanged, Recoverable}
use proxy_gateway_plus.Tx.Recover.{
  recovered, recover, recover_from, recover_locked, with_lock, judge_all, judge_resolved, judge,
  with_material, decide, steps_of, carry_out, put_back_all, put_back, discard, closing, is_broken,
  is_drifted, before_digest, intended_of,
}
use proxy_gateway_plus.Tx.Recovery.{recover-Sound}
use proxy_gateway_plus.Tx.Reported.{Sound}
use proxy_gateway_plus.Tx.Landing.{Apart, Landed}
use proxy_gateway_plus.Tx.Committed.{commit-Landed}
use proxy_gateway_plus.Tx.Drift.{Stray, recover-Stray}
use proxy_gateway_plus.Tx.Outdated.{Outdated, commit-Outdated}
use proxy_gateway_plus.Tx.Gc.{gc_keeps, gc, gc_from, only, is_open, is_terminal}
use proxy_gateway_plus.Tx.Listing.{Dir, list_tx, list_from, pending_recovery}
use proxy_gateway_plus.Tx.Writes.{write-other}
use proxy_gateway_plus.Tx.Sample.{
  conf_path, calm, old_conf, one_change, starts_with_fates, cut_in_the_middle, stuck_meta,
  stuck_images, stuck,
}

middle_file :
    (commit calm (starts_with_fates cut_in_the_middle)).1.disk.files conf_path ≡ regular "new"
unfolding commit commit_locked prepare pending_recovery list_tx list_from ◌>>=◌ gets require
    for_each check_target read_target read_entry validate_one validated_as save_meta durable
    durable_at side_file set_state modify pure catch record_before save_before keep_one image_of
    execute apply_all apply_one meta_of allowed action_conflicts conflicts_from conflicts_step wants
    clashes is_repair option_beq
middle_file = refl

stuck-Recoverable : Recoverable calm old_conf stuck.disk
unfolding image_of
stuck-Recoverable = record {
  meta = stuck_meta;
  images = stuck_images;
  saved_is = refl;
  asks = refl;
  current = refl;
  index = refl;
  imaged = ((some "old", refl, refl), tt);
  others_kept = λ p els. write-other conf_path p (regular "new") old_conf els.0;
}

recover-Sound_example :
    Sound calm old_conf (recover calm false stuck).1
    × ((recover calm false stuck).0 ≡ returned (recovered true)
        → Unchanged old_conf (recover calm false stuck).1)
recover-Sound_example = recover-Sound calm false old_conf stuck (λ d e h. h) stuck-Recoverable

abbrev asked_actions : List Action
asked_actions = restart "mosdns" ∷ stop "pdg-mitm" ∷ start "pdg-mitm" ∷ restart "nginx" ∷ []

gc_keeps_example :
    (only is_open
        (gc 1 (("c", some committed) ∷ ("b", some applying) ∷ ("a", some rolled_back) ∷ []))
      ≡ only is_open (("c", some committed) ∷ ("b", some applying) ∷ ("a", some rolled_back) ∷ []))
    × (only is_terminal
          (gc 1 (("c", some committed) ∷ ("b", some applying) ∷ ("a", some rolled_back) ∷ []))
        ≡ take 1 (
            only is_terminal
              (("c", some committed) ∷ ("b", some applying) ∷ ("a", some rolled_back) ∷ [])))
gc_keeps_example =
    gc_keeps 1 (("c", some committed) ∷ ("b", some applying) ∷ ("a", some rolled_back) ∷ [])

-- Recovery from there puts the file back, and removes the record.
recovered_stuck : (recover calm false stuck).0 ≡ returned (recovered true)
unfolding recover recover_from recover_locked with_lock judge_all judge_resolved judge with_material
    decide steps_of carry_out put_back_all put_back discard collect_old gc_from closing is_broken
    is_drifted before_digest intended_of ◌>>=◌ gets pure read_target read_entry attempt catch
    durable durable_at side_file option_beq
recovered_stuck = refl

-- With no failure the change is committed.
ends_committed : (commit calm (starts_with_fates [])).1.tx.state ≡ committed
unfolding commit commit_locked prepare pending_recovery list_tx list_from ◌>>=◌ gets require
    for_each check_target read_target read_entry validate_one validated_as save_meta durable
    durable_at side_file set_state modify pure catch record_before save_before keep_one image_of
    execute apply_all apply_one meta_of allowed action_conflicts conflicts_from conflicts_step wants
    clashes is_repair option_beq do_action judge_run units_hold not_worse services target_units
    action_units guard_units add_unit finish wind_up collect_old gc_from cleanup attempt
    note_leftovers unit_of contains target_service
ends_committed = refl

ends-Apart : Apart (commit calm (starts_with_fates [])).1.tx.targets
unfolding commit commit_locked prepare pending_recovery list_tx list_from ◌>>=◌ gets require
    for_each check_target read_target read_entry validate_one validated_as save_meta durable
    durable_at side_file set_state modify pure catch record_before save_before keep_one image_of
    execute apply_all apply_one meta_of allowed action_conflicts conflicts_from conflicts_step wants
    clashes is_repair option_beq do_action judge_run units_hold not_worse services target_units
    action_units guard_units add_unit finish wind_up collect_old gc_from cleanup attempt
    note_leftovers unit_of contains target_service
ends-Apart = (tt, tt)

commit-Landed_example :
    Landed calm
      (commit calm (starts_with_fates [])).1.tx
      (commit calm (starts_with_fates [])).1.disk.files
commit-Landed_example =
    commit-Landed calm (starts_with_fates []) (λ e. cc) ends_committed ends-Apart

-- An operator has repaired the file by hand.
abbrev repaired : World
repaired = record stuck {
  disk = record stuck.disk { files = write conf_path (regular "mended") old_conf };
}

repaired-Stray : Stray calm stuck_meta stuck_images repaired.disk.files ("mosdns_conf", conf_path)
unfolding option_beq before_digest intended_of
repaired-Stray (some cur) stands =
    (unlike "old" cur (ap text stands) refl, unlike "new" cur (ap text stands) refl)
  where
    text : Entry → String
    text (regular d) = d
    text _ = ""

    unlike :
        (other cur : String)
        → "mended" ≡ cur
        → ("mended" == other) ≡ false
        → option_beq (some cur) (some other) ≡ false
    unlike other cur e h = subst (λ c. (c == other) ≡ false) e h
repaired-Stray none stands = cc

recover-Stray_example : (recover calm false repaired).1.disk ≡ repaired.disk
recover-Stray_example =
    recover-Stray calm repaired stuck_meta stuck_images refl refl (inl repaired-Stray)

-- The change was made from an older file than the one that stands there.
abbrev old_watch : Watch
old_watch = record { watched = "mosdns_conf"; path = conf_path; digest = some "older" }

abbrev late : World
late = record (starts_with_fates []) { tx = record one_change { watches = old_watch ∷ [] } }

late-Outdated : Outdated calm late.disk.files old_watch
unfolding option_beq
late-Outdated (some cur) stands = unlike cur (ap text stands)
  where
    text : Entry → String
    text (regular d) = d
    text _ = ""

    unlike : (c : String) → "old" ≡ c → (c == "older") ≡ false
    unlike c e = subst (λ t. (t == "older") ≡ false) e refl
late-Outdated none stands = refl

commit-Outdated_example : (commit calm late).1.disk.files ≡ late.disk.files
commit-Outdated_example = commit-Outdated calm late (inl late-Outdated)

abbrev directories : List Dir
directories =
    ("d", some committed) ∷ ("c", some applying) ∷ ("b", none) ∷ ("a", some committed) ∷ []
