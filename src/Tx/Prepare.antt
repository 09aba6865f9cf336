-- ===== src/Tx/Prepare.antt =====
-- The part of `Tx.commit` in deploy/bot/pdgtx.py that comes before APPLYING.
use Prim.Native.Nat.{Ordering}
use proxy_gateway_plus.Prelude.{String, none, some, List, [], ◌∷◌, ◌≡◌, All}
use proxy_gateway_plus.Tx.{Target, Watch, Files, Entry, absent, symlink, regular, hardlinked}
use proxy_gateway_plus.Tx.Effect.{World, tx_error, gets}
use proxy_gateway_plus.Tx.Assemble.{read_entry, read_target, put_target, place}
use proxy_gateway_plus.Tx.Commit.{Env, check_target, check_watch}
use proxy_gateway_plus.Tx.Rules.{
  Keeps, Keeps-pure, Keeps-raise, Keeps-gets, Keeps-require, Keeps-bind,
}

-- Each target stands at the path that the whitelist gives its name.
abbrev pub Resolved : Env → Target → Type 0
Resolved env t = env.resolve t.name ≡ some t.path

-- The production files are as they were, and the targets are on the whitelist.
abbrev pub Untouched : Env → Files → World → Type 0
Untouched env files w = (w.disk.files ≡ files) × All (Resolved env) w.tx.targets

place-All :
    (P : Target → Type 0) (o : Ordering) (t u : Target) (ts placed : List Target)
    → P t
    → P u
    → All P ts
    → All P placed
    → All P (place o t u ts placed)
unfolding place
place-All P Ordering.lt t u ts placed p q r s = (p, (q, r))
place-All P Ordering.eq t u ts placed p q r s = (p, r)
place-All P Ordering.gt t u ts placed p q r s = (q, s)

pub put_target-All :
    (P : Target → Type 0) (t : Target) (ts : List Target) → P t → All P ts → All P (put_target t ts)
unfolding put_target
put_target-All P t [] p _ = (p, tt)
put_target-All P t (u ∷ ts) p (q, qs) =
    place-All P _ t u ts (put_target t ts) p q qs (put_target-All P t ts p qs)

module _ {I : World → Type 0} where
  pub Keeps-read_target : (path : String) → Keeps I (read_target path)
  unfolding read_target
  Keeps-read_target path =
      Keeps-bind (gets (λ w. w.disk.files path)) read_entry (Keeps-gets _) entry
    where
      entry : (e : Entry) → Keeps I (read_entry e)
      entry absent = unfold read_entry in Keeps-pure none
      entry (regular d) = unfold read_entry in Keeps-pure (some d)
      entry symlink = unfold read_entry in Keeps-raise tx_error
      entry (hardlinked d) = unfold read_entry in Keeps-raise tx_error

  pub Keeps-check_target : (env : Env) (t : Target) → Keeps I (check_target env t)
  unfolding check_target
  Keeps-check_target env t = search (Keeps-bind, Keeps-read_target, Keeps-require)

  pub Keeps-check_watch : (env : Env) (t : Watch) → Keeps I (check_watch env t)
  unfolding check_watch
  Keeps-check_watch env t = search (Keeps-bind, Keeps-read_target, Keeps-require)
