-- ===== src/Tx/Assemble.antt =====
-- `Tx.read_for_update`, `watch`, `stage`, `stage_derived`, `guard_service` and the state changes of
-- deploy/bot/pdgtx.py.
use Prim.Native.Nat.{Ordering}
use Prim.Native.String
use proxy_gateway_plus.Prelude.{
  String, Bool, true, false, Option, none, some, List, [], ◌∷◌, map, if◌then◌else◌, ◌==◌, String_eq,
  contains,
}
use proxy_gateway_plus.Tx.{
  TxState, preparing, allowed, schema_version, Target, Watch, Meta, Digest, Bytes, Entry, absent,
  symlink, regular, hardlinked, assoc, exists, write,
}
use proxy_gateway_plus.Tx.Action.{Want, service_units, put_want}
use proxy_gateway_plus.Tx.Effect.{
  Tx, Run, tx_error, os_error, refused, ◌>>=◌, ◌>>◌, pure, raise, gets, modify, require, durable,
}

-- `_read_target`: a symbolic link or a second hard link is refused.
unfoldable pub read_entry : Entry → Run (Option Bytes)
read_entry absent = pure none
read_entry (regular d) = pure (some d)
read_entry symlink = raise tx_error
read_entry (hardlinked d) = raise tx_error

unfoldable pub read_target : String → Run (Option Bytes)
read_target path = do entry ← gets (λ w. w.disk.files path); read_entry entry

-- `os.unlink`: removing a file that is not there is an error.
unfoldable pub unlink : String → Run (Unit {0})
unlink path = do
  there ← gets (λ w. exists (w.disk.files path))
  require there os_error
  durable (λ k. record k { files = write path absent k.files })

-- The targets are recorded with their paths, those of derived targets too: the source records the
-- path of a staged target, and looks that of a derived one up again.
unfoldable pub meta_of : Tx → Meta
meta_of tx = record {
  version = schema_version;
  state = tx.state;
  names = map (λ (t : Target). (t.name, t.path)) tx.targets;
  intended = tx.intended;
}

unfoldable pub save_meta : Run (Unit {0})
save_meta = do tx ← gets (λ w. w.tx); durable (λ d. record d { saved = some (meta_of tx) })

-- A change that the table `_ALLOWED` does not list is an error.
unfoldable pub set_state : TxState → Run (Unit {0})
set_state new = do
  state ← gets (λ w. w.tx.state)
  require (allowed state new) tx_error
  modify (λ tx. record tx { state = new })
  save_meta

unfoldable pub is_preparing : TxState → Bool
is_preparing preparing = true
is_preparing _ = false

-- `targets[name] = …`; the list is kept in the order of `sorted(self.targets)`.
unfoldable pub place : Ordering → Target → Target → List Target → List Target → List Target
place Ordering.lt t u rest placed = t ∷ u ∷ rest
place Ordering.eq t u rest placed = t ∷ rest
place Ordering.gt t u rest placed = u ∷ placed

unfoldable pub put_target : Target → List Target → List Target
put_target t [] = t ∷ []
put_target t (u ∷ rest) = place (String.compare t.name u.name) t u rest (put_target t rest)

-- `watches[name] = …`
unfoldable pub put_watch : Watch → List Watch → List Watch
put_watch w [] = w ∷ []
put_watch w (v ∷ rest) = if v.watched == w.watched then w ∷ rest else v ∷ put_watch w rest

-- The digest of a file, or none where there is no file.
abbrev pub digest_of : (Bytes → Digest) → Option Bytes → Option Digest
digest_of sha none = none
digest_of sha (some d) = some (sha d)

-- A file that production does not read, such as a candidate: it can fail, and changes nothing here.
unfoldable pub side_file : Run (Unit {0})
side_file = durable (λ d. d)

-- `sha` is the digest, and `resolve` the path of a target on the whitelist.
module _ (sha : Bytes → Digest) (resolve : String → Option String) where
  unfoldable pub path_of : String → Run String
  path_of name = elim (resolve name) [ none ↦ raise tx_error | some p ↦ pure p ]

  unfoldable pub read_for_update : String → Run (Option Bytes)
  read_for_update name = do
    path ← path_of name
    cur ← read_target path
    modify (λ tx. record tx { read_digests = (name, digest_of sha cur) ∷ tx.read_digests })
    pure cur

  unfoldable pub watch : String → Bool → Run (Option Bytes)
  watch name optional = do
    state ← gets (λ w. w.tx.state)
    require (is_preparing state) tx_error
    path ← path_of name
    cur ← read_target path
    require (elim cur [ none ↦ optional | some _ ↦ true ]) refused
    modify (λ tx. record tx {
      watches =
          put_watch (record { watched = name; path = path; digest = digest_of sha cur }) tx.watches;
    })
    save_meta
    pure cur

  -- What the candidate is based on: as told, or as read for an update, or what stands there now.
  unfoldable pub based_on :
      String → Option (Option Digest) → Option Bytes → List (String × Option Digest) → Option Digest
  based_on name (some e) cur reads = e
  based_on name none cur reads = elim (assoc name reads) [ none ↦ digest_of sha cur | some e ↦ e ]

  unfoldable pub stage_path :
      Option String → String → Option Bytes → Option (Option Digest) → Run (Unit {0})
  stage_path none name content expect = raise tx_error
  stage_path (some path) name content expect = do
    cur ← read_target path
    elim content [ none ↦ pure tt | some _ ↦ side_file ]
    modify (λ tx. record tx {
      targets =
          put_target
            (record {
              name = name;
              path = path;
              content = content;
              expect = based_on name expect cur tx.read_digests;
              existed = elim cur [ none ↦ false | some _ ↦ true ];
            })
            tx.targets;
    })

  unfoldable pub stage_at : String → Option Bytes → Option (Option Digest) → Run (Unit {0})
  stage_at name = stage_path (resolve name) name

  unfoldable pub stage : String → Option Bytes → Option (Option Digest) → Run (Unit {0})
  stage name content expect = do
    state ← gets (λ w. w.tx.state)
    require (is_preparing state) tx_error
    stage_at name content expect

  -- `stage_derived` does not ask for the PREPARING state again.
  unfoldable pub stage_derived : String → Bytes → Run (Unit {0})
  stage_derived name d = stage_at name (some d) none

unfoldable pub guard_service : String → Want → Run (Unit {0})
guard_service unit expect = do
  require (contains unit service_units) tx_error
  modify (λ tx. record tx { guards = put_want unit expect tx.guards })
  save_meta
