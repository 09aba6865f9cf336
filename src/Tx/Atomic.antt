-- ===== src/Tx/Atomic.antt =====
-- `Tx.commit` of deploy/bot/pdgtx.py, cut off or failing anywhere, with a later `recover(force=True)`.
use proxy_gateway_plus.Prelude.{String, true, Option, some, [], ◌≡◌, ◌⊎◌, All, String_eq}
use proxy_gateway_plus.Tx.{Meta, Files, Bytes}
use proxy_gateway_plus.Tx.Effect.{World, returned}
use proxy_gateway_plus.Tx.Commit.{Env}
use proxy_gateway_plus.Tx.Recover.{recovered, recover}
use proxy_gateway_plus.Tx.Specs.{entry_of}
use proxy_gateway_plus.Tx.Prepare.{Resolved}
use proxy_gateway_plus.Tx.Filled.{Named}
use proxy_gateway_plus.Tx.Journal.{Unchanged, IsCommitted}
use proxy_gateway_plus.Tx.Quiet.{Quiet}
use proxy_gateway_plus.Tx.Closed.{Closed}

-- What stands at the paths of the whitelist is a file with one link, or nothing.
abbrev pub HasPlain : Env → Files → Type 0
HasPlain env files =
    (name path : String)
    → env.resolve name ≡ some path
    → (c : Option Bytes) × (files path ≡ entry_of c)

-- Targets and what the disk records of them are on the whitelist.
pub record Tidy (env : Env) (w : World) : Type 0 where
  pub targets : All (Resolved env) w.tx.targets
  pub recorded : (m : Meta) → w.disk.saved ≡ some m → All (Named env) m.names
  pub plain : HasPlain env w.disk.files

-- The process starts again, and nothing fails any more.
abbrev pub restarted : World → World
restarted w = record w { fates = [] }

-- Every file is as it was, or the transaction is recorded as committed, or a forced recovery after a
-- restart reports success and leaves every file as it was.
abbrev pub IsAtomic : Env → Files → World → Type 0
IsAtomic env files w =
    Unchanged files w
    ⊎ IsCommitted w
    ⊎ (((recover env true (restarted w)).0 ≡ returned (recovered true))
        × Unchanged files (recover env true (restarted w)).1)
