-- ===== src/Tx/Journal.antt =====
-- The write-ahead record of deploy/bot/pdgtx.py: when an interrupted transaction can be undone.
use proxy_gateway_plus.Prelude.{
  String, true, false, Option, some, List, map, ◌≡◌, ◌≢◌, ◌⊎◌, inl, inr, refl, subst, sym, All,
}
use proxy_gateway_plus.Tx.{
  TxState, committed, needs_recovery, schema_version, is_unstarted, Target, Image, Meta, Disk,
  Files, Bytes, assoc,
}
use proxy_gateway_plus.Tx.Effect.{World}
use proxy_gateway_plus.Tx.Commit.{Env, image_of}
use proxy_gateway_plus.Tx.Specs.{entry_of}

-- The path is none of these.
abbrev pub Elsewhere : String → List (String × String) → Type 0
Elsewhere p names = All (λ n. n.1 ≢ p) names

abbrev pub names_of : List Target → List (String × String)
names_of targets = map (λ (t : Target). (t.name, t.path)) targets

-- The before-image holds what stood at the path of a target.
abbrev pub Imaged : Env → Files → List (String × Image) → String × String → Type 0
Imaged env files images (name, path) =
    (c : Option Bytes) × (files path ≡ entry_of c) × (assoc name images ≡ some (image_of env c))

-- A disk from which the files can be put back: the saved state asks for recovery, each target has
-- its before-image, and no other file was changed.
pub record Recoverable (env : Env) (files : Files) (d : Disk) : Type 0 where
  pub meta : Meta
  pub images : List (String × Image)
  pub saved_is : d.saved ≡ some meta
  pub asks : needs_recovery meta.state ≡ true
  pub current : meta.version ≡ schema_version
  pub index : d.before ≡ some images
  pub imaged : All (Imaged env files images) meta.names
  pub others_kept : (p : String) → Elsewhere p meta.names → d.files p ≡ files p

abbrev pub Unchanged : Files → World → Type 0
Unchanged files w = (p : String) → w.disk.files p ≡ files p

abbrev pub IsCommitted : World → Type 0
IsCommitted w = (m : Meta) × (w.disk.saved ≡ some m) × (m.state ≡ committed)

-- What holds of the disk whenever the process ends.
abbrev pub Safe : Env → Files → World → Type 0
Safe env files w = Unchanged files w ⊎ Recoverable env files w.disk ⊎ IsCommitted w

-- The same of a running transaction, which knows its targets and images.
pub record Journaled (env : Env) (files : Files) (targets : List Target)
    (images : List (String × Image)) (w : World) : Type 0 where
  pub targets_are : w.tx.targets ≡ targets
  pub images_are : w.tx.images ≡ images
  pub live : needs_recovery w.tx.state ≡ true
  pub index : w.disk.before ≡ some images
  pub journal :
      (m : Meta) × (w.disk.saved ≡ some m)
      × (needs_recovery m.state ≡ true)
      × (m.names ≡ names_of targets)
      × (m.version ≡ schema_version)
  pub imaged : All (Imaged env files images) (names_of targets)
  pub others_kept : (p : String) → Elsewhere p (names_of targets) → w.disk.files p ≡ files p

pub Journaled-Safe :
    (env : Env) (files : Files) (targets : List Target) (images : List (String × Image)) (w : World)
    → Journaled env files targets images w
    → Safe env files w
Journaled-Safe env files targets images w j =
    let (m, saved, asks, names, current) = j.journal in
    inr (
      inl (record {
        meta = m;
        images = images;
        saved_is = saved;
        asks = asks;
        current = current;
        index = j.index;
        imaged = subst (All (Imaged env files images)) (sym names) j.imaged;
        others_kept = λ p e. j.others_kept p (subst (Elsewhere p) names e);
      }))

-- Wherever a run of `commit` ends: the disk is safe, and a transaction that has started is known to
-- have started.
abbrev pub Settled : Env → Files → World → Type 0
Settled env files w = Unchanged files w ⊎ (Safe env files w × (is_unstarted w.tx.state ≡ false))

pub Settled-Safe : (env : Env) (files : Files) (w : World) → Settled env files w → Safe env files w
Settled-Safe env files w (inl h) = inl h
Settled-Safe env files w (inr h) = h.0

started : (s : TxState) → needs_recovery s ≡ true → is_unstarted s ≡ false
started TxState.preparing h = sym h
started TxState.validated h = sym h
started TxState.applying h = refl
started TxState.observing h = refl
started TxState.committed h = refl
started TxState.rolling_back h = refl
started TxState.rolled_back h = refl
started TxState.rollback_failed h = refl
started TxState.aborted h = refl

pub Journaled-Settled :
    (env : Env) (files : Files) (targets : List Target) (images : List (String × Image)) (w : World)
    → Journaled env files targets images w
    → Settled env files w
Journaled-Settled env files targets images w j =
    inr (Journaled-Safe env files targets images w j, started w.tx.state j.live)
