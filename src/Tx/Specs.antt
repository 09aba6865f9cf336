-- ===== src/Tx/Specs.antt =====
-- Specifications of the basic runs of Tx/Effect.
use proxy_gateway_plus.Prelude.{
  String, Bool, true, false, Option, none, some, List, [], ◌∷◌, if◌then◌else◌, ◌≡◌, refl, All,
}
use proxy_gateway_plus.Tx.{Disk, Bytes, Entry, absent, symlink, regular, hardlinked}
use proxy_gateway_plus.Tx.Effect.{
  Fate, done, raised_before, raised_after, cut_before, cut_after, Tx, World, Run, Outcome, Exn,
  returned, raised, cut_off, ◌>>=◌, pure, raise, catch, handle, gets, modify, require, durable,
  durable_at,
}
use proxy_gateway_plus.Tx.Assemble.{read_entry, read_target}
use proxy_gateway_plus.Tx.Commit.{for_each}
use proxy_gateway_plus.Tx.Rules.{Keeps, Ends, Spec, Keeps-pure, Keeps-bind}

module _ {A : Type 0} {P C : World → Type 0} {Q : A → World → Type 0} where
  pub Spec-pure : (a : A) → ((w : World) → P w → Q a w) → Spec P (pure a) Q C
  unfolding pure
  Spec-pure a h = record { at = h }

  pub Spec-raise : (e : Exn) → ((w : World) → P w → C w) → Spec P (raise e) Q C
  unfolding raise
  Spec-raise e h = record { at = h }

  pub Spec-gets : (f : World → A) → ((w : World) → P w → Q (f w) w) → Spec P (gets f) Q C
  unfolding gets
  Spec-gets f h = record { at = h }

  pub Spec-if :
      (b : Bool) (m n : Run A)
      → (b ≡ true → Spec P m Q C)
      → (b ≡ false → Spec P n Q C)
      → Spec P (if b then m else n) Q C
  Spec-if true m n h k = h refl
  Spec-if false m n h k = k refl

  -- The handler starts from whatever an exception leaves.
  pub Spec-catch :
      (m : Run A) (h : Exn → Run A)
      → Spec P m Q C
      → ((e : Exn) → Spec C (h e) Q C)
      → Spec P (catch m h) Q C
  unfolding catch
  Spec-catch m h k l = record { at = λ w p. go (m w).0 (m w).1 (k.at w p) }
    where
      go : (o : Outcome A) (v : World) → Ends Q C o v → Ends Q C (handle h o v).0 (handle h o v).1
      go (returned a) v i = i
      go (raised e) v i = (l e).at v i
      go cut_off v i = i

-- The handler starts from what the protected run promises of its exceptions.
pub Spec-handle :
    {A : Type 0} {P C₀ C : World → Type 0} {Q : A → World → Type 0} (m : Run A) (h : Exn → Run A)
    → Spec P m Q C₀
    → ((e : Exn) → Spec C₀ (h e) Q C)
    → ((w : World) → C₀ w → C w)
    → Spec P (catch m h) Q C
unfolding catch
Spec-handle {A} {P} {C₀} {C} {Q} m h k l up = record { at = λ w p. go (m w).0 (m w).1 (k.at w p) }
  where
    go : (o : Outcome A) (v : World) → Ends Q C₀ o v → Ends Q C (handle h o v).0 (handle h o v).1
    go (returned a) v i = i
    go (raised e) v i = (l e).at v i
    go cut_off v i = up v i

module _ {P C : World → Type 0} {Q : Unit {0} → World → Type 0} where
  pub Spec-modify :
      (f : Tx → Tx) → ((w : World) → P w → Q tt (record w { tx = f w.tx })) → Spec P (modify f) Q C
  unfolding modify
  Spec-modify f h = record { at = h }

  pub Spec-require :
      (b : Bool) (e : Exn)
      → (b ≡ true → (w : World) → P w → Q tt w)
      → ((w : World) → P w → C w)
      → Spec P (require b e) Q C
  unfolding require
  Spec-require true e h c = record { at = h refl }
  Spec-require false e h c = record { at = c }

  -- A durable effect: done, or ended with or without it.
  pub Spec-durable :
      (f : Disk → Disk)
      → ((w : World) (rest : List Fate) → P w → P (record w { fates = rest }))
      → ((w : World) → P w → Q tt (record w { disk = f w.disk }))
      → ((w : World) → P w → C w)
      → ((w : World) → P w → C (record w { disk = f w.disk }))
      → Spec P (durable f) Q C
  unfolding durable durable_at
  Spec-durable f blind q before after = record { at = λ w p. go w.fates w p }
    where
      go : (fs : List Fate) (w : World) → P w → Ends Q C (durable_at fs f w).0 (durable_at fs f w).1
      go [] w p = q w p
      go (done ∷ rest) w p = q (record w { fates = rest }) (blind w rest p)
      go (raised_before ∷ rest) w p = before (record w { fates = rest }) (blind w rest p)
      go (raised_after ∷ rest) w p = after (record w { fates = rest }) (blind w rest p)
      go (cut_before ∷ rest) w p = before (record w { fates = rest }) (blind w rest p)
      go (cut_after ∷ rest) w p = after (record w { fates = rest }) (blind w rest p)

-- The entry of a file with these contents.
abbrev pub entry_of : Option Bytes → Entry
entry_of none = absent
entry_of (some d) = regular d

pub Spec-read_target :
    {P : World → Type 0} (path : String)
    → Spec P (read_target path) (λ cur w. P w × (w.disk.files path ≡ entry_of cur)) P
unfolding read_target gets ◌>>=◌
Spec-read_target {P} path = record { at = λ w p. go w p (w.disk.files path) refl }
  where
    go :
        (w : World)
        → P w
        → (e : Entry) → w.disk.files path ≡ e
        → Ends
            (λ cur v. P v × (v.disk.files path ≡ entry_of cur))
            P
            (read_entry e w).0
            (read_entry e w).1
    go w p absent h = unfold read_entry pure in (p, h)
    go w p (regular d) h = unfold read_entry pure in (p, h)
    go w p symlink h = unfold read_entry raise in p
    go w p (hardlinked d) h = unfold read_entry raise in p

-- A loop whose steps are known to keep the invariant for the items of this list.
pub Keeps-for_each_in :
    {A : Type 0} {I : World → Type 0} (xs : List A) (f : A → Run (Unit {0}))
    → All (λ x. Keeps I (f x)) xs
    → Keeps I (for_each xs f)
unfolding for_each
Keeps-for_each_in [] f _ = Keeps-pure tt
Keeps-for_each_in (x ∷ xs) f (h, hs) = Keeps-bind (f x) _ h (λ _. Keeps-for_each_in xs f hs)
