-- ===== src/Tx/Landing.antt =====
-- The files of the targets while `Tx._commit_locked` of deploy/bot/pdgtx.py applies the candidates.
use proxy_gateway_plus.Prelude.{
  String, Bool, true, false, Option, none, some, List, [], ◌∷◌, if◌then◌else◌, ◌≡◌, ◌≢◌, sym, ◌∙◌,
  subst, All,
}
use proxy_gateway_plus.Tx.{committed, Target, Files, Bytes, Entry, absent, regular, write}
use proxy_gateway_plus.Tx.Action.{expected_states}
use proxy_gateway_plus.Tx.Observe.{Reached, NotWorse, services}
use proxy_gateway_plus.Tx.Effect.{Tx, World, pure, durable}
use proxy_gateway_plus.Tx.Assemble.{unlink}
use proxy_gateway_plus.Tx.Commit.{Env, for_each, apply_one}
use proxy_gateway_plus.Tx.Rules.{Spec, Spec-bind, Spec-weaken}
use proxy_gateway_plus.Tx.Specs.{Spec-pure, Spec-gets, Spec-require, Spec-durable}
use proxy_gateway_plus.Tx.Writes.{write-other, write-same}

-- The file of a target holds its candidate; a target that is to be deleted is gone if it was there.
abbrev pub HoldsAs : Files → String → Bool → Option Bytes → Type 0
HoldsAs now path existed (some d) = now path ≡ regular d
HoldsAs now path existed none = existed ≡ true → now path ≡ absent

abbrev pub Holds : Files → Target → Type 0
Holds now t = HoldsAs now t.path t.existed t.content

-- No two targets share a path.
abbrev pub Apart : List Target → Type 0
Apart [] = Unit
Apart (t ∷ ts) = All (λ (u : Target). t.path ≢ u.path) ts × Apart ts

-- What a committed transaction has done.
pub record Landed (env : Env) (tx : Tx) (now : Files) : Type 0 where
  pub holds : All (Holds now) tx.targets
  pub reached :
      All
        (Reached env.stable env.base (expected_states tx.actions))
        (services tx.targets tx.actions tx.guards)
  pub steady : All (NotWorse env.base) env.after

abbrev pub LandedIfDone : Env → World → Type 0
LandedIfDone env w = w.tx.state ≡ committed → Apart w.tx.targets → Landed env w.tx w.disk.files

Holds-other :
    (now : Files) (p : String) (e : Entry) (path : String) (existed : Bool) (c : Option Bytes)
    → p ≢ path
    → HoldsAs now path existed c
    → HoldsAs (write p e now) path existed c
Holds-other now p e path existed (some d) h k = write-other p path e now h ∙ k
Holds-other now p e path existed none h k = λ was. write-other p path e now h ∙ k was

Holds-others :
    (now : Files) (p : String) (e : Entry) (done : List Target)
    → All (λ (d : Target). p ≢ d.path) done
    → All (Holds now) done
    → All (Holds (write p e now)) done
Holds-others now p e [] _ _ = tt
Holds-others now p e (d ∷ done) (h, hs) (k, ks) =
    (Holds-other now p e d.path d.existed d.content h k, Holds-others now p e done hs ks)

-- The rest of the targets is apart from those that are done, and among itself.
abbrev Rest : List Target → List Target → Type 0
Rest done ts = All (λ (u : Target). All (λ (d : Target). u.path ≢ d.path) done) ts × Apart ts

Rest-next : (t : Target) (done ts : List Target) → Rest done (t ∷ ts) → Rest (t ∷ done) ts
Rest-next t done ts ((_, hs), (a, rest)) = (go ts hs a, rest)
  where
    go :
        (us : List Target)
        → All (λ (u : Target). All (λ (d : Target). u.path ≢ d.path) done) us
        → All (λ (u : Target). t.path ≢ u.path) us
        → All (λ (u : Target). All (λ (d : Target). u.path ≢ d.path) (t ∷ done)) us
    go [] _ _ = tt
    go (u ∷ us) (h, hs) (k, ks) = (((λ e. k (sym e)), h), go us hs ks)

Rest-start : (ts : List Target) → Apart ts → Rest [] ts
Rest-start ts a = (go ts, a)
  where
    go : (us : List Target) → All (λ (u : Target). All (λ (d : Target). u.path ≢ d.path) []) us
    go [] = tt
    go (u ∷ us) = (tt, go us)

module _ (env : Env) where
  -- Not committed yet.
  abbrev pub Open : World → Type 0
  Open w = w.tx.state ≢ committed

  module _ (targets : List Target) where
    -- These targets have landed, provided that all are apart.
    abbrev Landing : List Target → World → Type 0
    Landing done w =
        Open w × (w.tx.targets ≡ targets) × (Apart targets → All (Holds w.disk.files) done)

    -- The same, with one more file that holds its candidate.
    abbrev Landing1 : List Target → String → Bool → Option Bytes → World → Type 0
    Landing1 done path existed c w =
        Open w
        × (w.tx.targets ≡ targets)
        × (Apart targets → HoldsAs w.disk.files path existed c × All (Holds w.disk.files) done)

    Spec-Landing :
        (done : List Target) (path : String) (e : Entry) (existed : Bool) (c : Option Bytes)
        → (Apart targets → All (λ (d : Target). path ≢ d.path) done)
        → ((now : Files) → HoldsAs (write path e now) path existed c)
        → Spec
            (Landing done)
            (durable (λ k. record k { files = write path e k.files }))
            (λ _. Landing1 done path existed c)
            Open
    Spec-Landing done path e existed c apart lands =
        Spec-durable _ (λ w rest h. h)
          (λ w h. (
            h.0,
            h.1,
            λ a. (lands w.disk.files, Holds-others w.disk.files path e done (apart a) (h.2 a)),
          ))
          (λ w h. h.0) (λ w h. h.0)

    Spec-removing :
        (done : List Target) (path : String) (existed : Bool)
        → (Apart targets → All (λ (d : Target). path ≢ d.path) done)
        → Spec
            (Landing done)
            (if existed then unlink path else pure tt)
            (λ _. Landing1 done path existed none)
            Open
    unfolding unlink
    Spec-removing done path true apart =
        Spec-bind _ _ (Spec-gets {Q = λ _. Landing done} _ (λ w h. h)) (λ there.
          Spec-bind _ _ (Spec-require {Q = λ _. Landing done} _ _ (λ _ w h. h) (λ w h. h.0)) (λ _.
            Spec-Landing done path absent true none apart (λ now _. write-same path absent now)))
    Spec-removing done path false apart =
        Spec-pure tt (λ w h. (h.0, h.1, λ a. ((λ was. cc), h.2 a)))

    Spec-apply_one :
        (done : List Target) (t : Target)
        → (Apart targets → All (λ (d : Target). t.path ≢ d.path) done)
        → Spec (Landing done) (apply_one env t) (λ _. Landing (t ∷ done)) Open
    unfolding apply_one
    Spec-apply_one done t apart = go t.content
      where
        go :
            (c : Option Bytes)
            → Spec
                (Landing done)
                (elim c [
                  | some d ↦ durable (λ k. record k { files = write t.path (regular d) k.files })
                  | none ↦ if t.existed then unlink t.path else pure tt
                ])
                (λ _. Landing1 done t.path t.existed c)
                Open
        go (some d) =
            Spec-Landing done t.path (regular d) t.existed (some d) apart
              (write-same t.path (regular d))
        go none = Spec-removing done t.path t.existed apart

    Spec-apply_each :
        (done ts : List Target)
        → (Apart targets → Rest done ts)
        → Spec
            (Landing done)
            (for_each ts (apply_one env))
            (λ _ w. Landing done w × (Apart targets → All (Holds w.disk.files) ts))
            Open
    unfolding for_each
    Spec-apply_each done [] rest = Spec-pure tt (λ w h. (h, λ _. tt))
    Spec-apply_each done (t ∷ ts) rest =
        Spec-bind _ _ (Spec-apply_one done t (λ a. (rest a).0.0)) (λ _.
          Spec-weaken _ (Spec-apply_each (t ∷ done) ts (λ a. Rest-next t done ts (rest a)))
            (λ w h. h) (λ _ w h. ((h.0.0, h.0.1, λ a. (h.0.2 a).1), λ a. ((h.0.2 a).0, h.1 a)))
            (λ w h. h))

  -- All the files are there, if the paths are apart.
  abbrev pub Written : World → Type 0
  Written w = Open w × (Apart w.tx.targets → All (Holds w.disk.files) w.tx.targets)

  pub Spec-apply_targets :
      (ts : List Target)
      → Spec (λ w. Open w × (w.tx.targets ≡ ts)) (for_each ts (apply_one env)) (λ _. Written) Open
  Spec-apply_targets ts =
      Spec-weaken _ (Spec-apply_each ts [] ts (Rest-start ts)) (λ w h. (h.0, h.1, λ _. tt))
        (λ _ w h.
          (h.0.0, λ a. subst (All (Holds w.disk.files)) (sym h.0.1) (h.1 (subst Apart h.0.1 a))))
        (λ w h. h)
