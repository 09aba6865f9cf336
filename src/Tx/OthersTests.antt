-- ===== src/Tx/OthersTests.antt =====
-- Tests of what deploy/bot/pdgtx.py does to the other transactions.
use proxy_gateway_plus.Prelude.{
  String, Option, none, some, List, [], ◌∷◌, option_beq, contains, refl, ◌≡◌,
}
use proxy_gateway_plus.Tx.{TxState, committed, preparing, aborted, allowed}
use proxy_gateway_plus.Tx.Effect.{
  World, ◌>>=◌, gets, require, durable, durable_at, modify, pure, catch,
}
use proxy_gateway_plus.Tx.Commit.{
  Env, commit, commit_locked, prepare, for_each, check_target, validate_one, validated_as,
  record_before, save_before, keep_one, image_of, execute, apply_all, apply_one, is_repair,
  do_action, judge_run, finish, wind_up, collect_old, cleanup, attempt, note_leftovers,
}
use proxy_gateway_plus.Tx.Listing.{pending_recovery, list_tx, list_from}
use proxy_gateway_plus.Tx.Assemble.{
  read_target, read_entry, save_meta, side_file, set_state, meta_of,
}
use proxy_gateway_plus.Tx.Action.{action_conflicts, conflicts_from, conflicts_step, wants, clashes}
use proxy_gateway_plus.Tx.Observe.{
  units_hold, not_worse, services, target_units, action_units, guard_units, add_unit, unit_of,
  target_service,
}
use proxy_gateway_plus.Tx.Gc.{gc_from, is_terminal}
use proxy_gateway_plus.Tx.Sample.{calm, idle_disk, starts_with_fates}

-- Only one finished transaction is kept, which is the one that runs.
abbrev sparing : Env
sparing = record calm { keep = 1 }

abbrev neighbours : List (String × Option TxState)
neighbours = ("d", some committed) ∷ ("c", some preparing) ∷ ("b", none) ∷ ("a", some aborted) ∷ []

abbrev among : World
among = record (starts_with_fates []) { disk = record idle_disk { others = neighbours } }

removes_finished : (commit sparing among).1.disk.others ≡ ("c", some preparing) ∷ ("b", none) ∷ []
unfolding commit commit_locked prepare pending_recovery list_tx list_from ◌>>=◌ gets require
    for_each check_target read_target read_entry validate_one validated_as save_meta durable
    durable_at side_file set_state modify pure catch record_before save_before keep_one image_of
    execute apply_all apply_one meta_of allowed action_conflicts conflicts_from conflicts_step wants
    clashes is_repair option_beq do_action judge_run units_hold not_worse services target_units
    action_units guard_units add_unit finish wind_up collect_old gc_from is_terminal cleanup attempt
    note_leftovers unit_of contains target_service
removes_finished = refl
