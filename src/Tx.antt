-- ===== src/Tx.antt =====
-- deploy/bot/pdgtx.py, the configuration transaction: its states, targets and records.
pub mod Action
pub mod Conflicts
pub mod Effect
pub mod Assemble
pub mod Rules
pub mod Observe
pub mod Views
pub mod Prepare
pub mod Specs
pub mod Journal
pub mod Filled
pub mod Before
pub mod Writes
pub mod Apply
pub mod Rollback
pub mod Endings
pub mod Quiet
pub mod Closed
pub mod RolledBack
pub mod Crash
pub mod Commit
pub mod Recover
pub mod Mended
pub mod Judge
pub mod Reported
pub mod Recovery
pub mod Succeeds
pub mod Undone
pub mod Success
pub mod Atomic
pub mod Drift
pub mod Outdated
pub mod Whitelist
pub mod Placed
pub mod PathTests
pub mod Landing
pub mod Landed
pub mod Committed
pub mod Gc
pub mod Listing
pub mod Others
pub mod Sample
pub mod Tests
pub mod AtomicTests
pub mod OthersTests
use proxy_gateway_plus.Prelude.{
  ℕ, String, Bool, true, false, Option, none, some, List, [], ◌∷◌, if◌then◌else◌, ◌==◌, String_eq,
  any,
}

pub data TxState : Type 0 where
  preparing validated applying observing committed : TxState
  rolling_back rolled_back rollback_failed aborted : TxState

-- The table `_ALLOWED`.
unfoldable pub allowed : TxState → TxState → Bool
allowed preparing validated = true
allowed preparing aborted = true
allowed validated applying = true
allowed validated aborted = true
allowed applying observing = true
allowed applying rolling_back = true
allowed observing committed = true
allowed observing rolling_back = true
allowed rolling_back rolled_back = true
allowed rolling_back rollback_failed = true
allowed _ _ = false

abbrev pub gc_terminal : TxState → Bool
gc_terminal committed = true
gc_terminal rolled_back = true
gc_terminal aborted = true
gc_terminal _ = false

-- Interrupted in such a state, production files may have been changed.
abbrev pub needs_recovery : TxState → Bool
needs_recovery applying = true
needs_recovery observing = true
needs_recovery rolling_back = true
needs_recovery rollback_failed = true
needs_recovery _ = false

abbrev pub is_unstarted : TxState → Bool
is_unstarted preparing = true
is_unstarted validated = true
is_unstarted _ = false

-- The contents of a file, and its digest; digests are texts.
abbrev pub Bytes : Type 0
Bytes = String

abbrev pub Digest : Type 0
Digest = String

-- What stands at a path. Modes and owners are left out.
pub data Entry : Type 0 where
  absent symlink : Entry
  regular hardlinked : Bytes → Entry

abbrev pub Files : Type 0
Files = String → Entry

pub record Target : Type 0 where
  pub name : String
  pub path : String
  pub content : Option Bytes  -- `none` deletes the file
  pub expect : Option Digest
  pub existed : Bool

pub record Watch : Type 0 where
  pub watched : String
  pub path : String
  pub digest : Option Digest

pub data Mode : Type 0 where
  normal repair : Mode

-- A file of the before-image: the kept copy may turn out unreadable.
pub data Image : Type 0 where
  missing : Image
  kept : Option Bytes → Digest → Image

-- What meta.json records of a transaction.
abbrev pub schema_version : ℕ
schema_version = 1

pub record Meta : Type 0 where
  pub version : ℕ
  pub state : TxState
  pub names : List (String × String)
  pub intended : List (String × Option Digest)

pub record Disk : Type 0 where
  pub files : Files
  pub saved : Option Meta
  pub before : Option (List (String × Image))
  pub others : List (String × Option TxState)  -- from the newest; a record may be unreadable

abbrev pub assoc {ℓ} : {A : Type ℓ} → String → List (String × A) → Option A
assoc k [] = none
assoc k ((j, a) ∷ rest) = if j == k then some a else assoc k rest

abbrev pub write : String → Entry → Files → Files
write path e files q = if path == q then e else files q

abbrev pub exists : Entry → Bool
exists absent = false
exists _ = true
