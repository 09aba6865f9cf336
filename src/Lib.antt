-- ===== src/Lib.antt =====
-- A model of the management plane of proxy-gateway-plus, a DNS-based traffic gateway, and theorems
-- about it.
--
-- Parts of the program and where they are modelled:
--   Health     deploy/bot/healthcheck.py, the periodic health check. It loads its state file
--              (`Health.Decode`), observes the problems for each recipient (`Health`), writes the
--              state, sends what is due and writes after each send (`Health.Run`). A recipient's row
--              is the record `Row`; the state file is a JSON value (`Prelude.Json`).
--   Tx         deploy/bot/pdgtx.py, the configuration transaction that every change of production
--              files goes through. `Tx` has its states and records, `Tx.Action` the service actions,
--              `Tx.Assemble` the staging of candidates, `Tx.Observe` the judgement, `Tx.Commit` the
--              commit with its rollback, `Tx.Recover` the recovery of an interrupted transaction and
--              `Tx.Gc` the removal of old ones, `Tx.Listing` the reports on them. A run of it
--              (`Tx.Effect`) changes a disk by durable effects, each of which may be done, raise
--              before or after it took place, or be the last thing that the process does; a list of
--              fates says which, and with no fates left effects are done, so that no bound is needed.
--              `Tx.Rules` and `Tx.Specs` reason about such runs; `Tx.Before`, `Tx.Apply`,
--              `Tx.Rollback` and `Tx.Crash` prove the write-ahead discipline of a commit, and
--              `Tx.Mended`, `Tx.Judge` and `Tx.Recovery` that of a recovery. `Tx.Landing`,
--              `Tx.Landed` and `Tx.Committed` are about what a committed one has done, `Tx.Succeeds`,
--              `Tx.Undone` and `Tx.Success` about a recovery that nothing disturbs, `Tx.Outdated` and
--              `Tx.Drift` about files that others have changed. `Tx.Quiet` and `Tx.Closed` are
--              about invariants that the effects of a commit keep, and `Tx.Atomic` about a commit and
--              the recovery after it. `Tx.Others` is about the other transactions. `Tx.Whitelist` is
--              `resolve_target`, with the certificate directory as a parameter.
--              The record of the disk is meta.json (`Meta`) and before/index.json.
--   Geosite    deploy/bot/parse-geosite.py, the reader of protobuf messages: `_rv` is `read_varint`,
--              with the ten rounds of its loop, and `_fields` is `fields`, whose fuel is the number
--              of bytes since each round takes one. `Geosite.Varint` and `Geosite.Fields` write
--              messages as protobuf does. `Geosite.Lists` is `main`, with decoding and upper-casing
--              as parameters, and `Geosite.Picked` says which categories it finds.
--   Policy     deploy/bot/pdgmodel.py, the routing model that the bot, the panel and the renderer
--              share. A model is a JSON value (`Prelude.Json`), a function of the source that changes
--              it returns the new one, and `ModelError` is what it may raise. `Policy.Names`
--              normalizes and validates names, with the tables of Python's unicodedata as the
--              parameter `Unicode`; `Policy.Group` and `Policy.Validate` are the validation,
--              `Policy.Cycle` its search for groups that depend on themselves, whose fuel is one more
--              than the number of groups, since the names on the way differ; `Policy.Legacy`,
--              `Policy.Canonical` and `Policy.Migrate` are the migration, `Policy.Rename` and
--              `Policy.Rebind` what changes names. `Policy.Validate.Reading` says what a model says
--              without any check, and `Policy.Validate.Valid` what a valid one is; `Policy.Migrated`,
--              `Policy.Offered`, `Policy.Rebound`, `Policy.Refused` and `Policy.Beside` are about the
--              functions that the rest of the program calls.
--   Profile    deploy/bot/pdgprofile.py, the settings of the transparent data plane in profile.env.
--              `Profile` reads the file, `Profile.Numbers` the numbers, ports and marks (with
--              `parse_port_list` and `parse_quic_mode` of deploy/bot/sb2mihomo.py), `Profile.Resolve`
--              is `resolve` and the lines that are written, with `ipaddress` as the parameter
--              `network`, and `Profile.Retarget` the switch of the platform. `Profile.Render` renders
--              the template of the firewall and `Profile.Rendered` says what it makes of it;
--              `Profile.Hosts` has addresses, host names and live listeners, with `ipaddress`,
--              `str.lower` and the output of `ss` as parameters. Numbers are written with ten decimal
--              or eight hexadecimal digits at most, enough for those below 2 ^ 32. `Profile.Sound`
--              says what settings are sound, `Profile.Kept` what a switched profile is,
--              `Profile.ReadOnce` which lines set a key, and `Profile.ReadBack` and
--              `Profile.NumbersBack` read back what is written.
--
-- Conventions. Numbers are natural; times are whole seconds, so a float of the source stands for
-- its whole value. A dict is a list of pairs whose first match counts. What a function raises is the
-- `err` of a `Result`. The outside (Telegram's answer, whether a write succeeds) is an argument, and
-- what a run does to the outside is a list of events in order.
--
-- In `Tx` the digest, the whitelist of targets, validators, systemd and the health checks are fields
-- of `Env`. File modes and owners, the audit log and the texts of errors are left out, and an effect
-- on a file that nothing here reads is `side_file`. The removal of old transactions at the end of a
-- run takes it that fewer finished ones than `TX_KEEP` are newer than the one that runs, so that its own
-- directory stays; identifiers begin with the time.
--
-- Not modelled: the validators of `pdgtx.py` and its command line; the command line of
-- `pdgprofile.py`; the merging of firewall files (nftmerge.py, nftscan.py), which is regular
-- expressions over texts of another program; the translation into Mihomo configurations
-- (sb2mihomo.py) except the two parsers that profiles use; the Telegram bot and the web panel,
-- which are dialogues, pages and system calls around the parts above; the checks of the running
-- system; the shell scripts, file permissions and locks.
pub mod Prelude
pub mod Health
pub mod Tx
pub mod Geosite
pub mod Policy
pub mod Profile
