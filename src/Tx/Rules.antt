-- ===== src/Tx/Rules.antt =====
-- Rules for the runs of Tx/Effect: invariants that hold however a run ends, and specifications
-- that tell its ends apart.
use proxy_gateway_plus.Prelude.{Bool, true, false, List, [], ◌∷◌, if◌then◌else◌}
use proxy_gateway_plus.Tx.{Disk}
use proxy_gateway_plus.Tx.Effect.{
  Fate, done, raised_before, raised_after, cut_before, cut_after, Tx, World, Run, Outcome, Exn,
  returned, raised, cut_off, ◌>>=◌, pure, raise, catch, resume, handle, gets, modify, require,
  durable, durable_at,
}
use proxy_gateway_plus.Tx.Commit.{for_each, attempt}

-- The invariant holds when the run ends, whether it returns, raises or is cut off.
pub record Keeps {A : Type 0} (I : World → Type 0) (m : Run A) : Type 0 where
  pub at : (w : World) → I w → I (m w).1

abbrev pub Ends :
    {A : Type 0} → (A → World → Type 0) → (World → Type 0) → Outcome A → World → Type 0
Ends Q C (returned a) w = Q a w
Ends Q C (raised e) w = C w
Ends Q C cut_off w = C w

-- From `P` the run returns with `Q`, or ends in any other way with `C`.
pub record Spec {A : Type 0} (P : World → Type 0) (m : Run A) (Q : A → World → Type 0)
    (C : World → Type 0) : Type 0 where
  pub at : (w : World) → P w → Ends Q C (m w).0 (m w).1

module _ {I : World → Type 0} where
  pub Keeps-pure : {A : Type 0} (a : A) → Keeps I (pure a)
  unfolding pure
  Keeps-pure a = record { at = λ w h. h }

  pub Keeps-raise : {A : Type 0} (e : Exn) → Keeps I (raise {A = A} e)
  unfolding raise
  Keeps-raise e = record { at = λ w h. h }

  pub Keeps-gets : {A : Type 0} (f : World → A) → Keeps I (gets f)
  unfolding gets
  Keeps-gets f = record { at = λ w h. h }

  pub Keeps-require : (b : Bool) (e : Exn) → Keeps I (require b e)
  unfolding require
  Keeps-require true e = record { at = λ w h. h }
  Keeps-require false e = record { at = λ w h. h }

  pub Keeps-if :
      {A : Type 0} (b : Bool) (m n : Run A) → Keeps I m → Keeps I n → Keeps I (if b then m else n)
  Keeps-if true m n h k = h
  Keeps-if false m n h k = k

  pub Keeps-bind :
      {A B : Type 0} (m : Run A) (f : A → Run B)
      → Keeps I m
      → ((a : A) → Keeps I (f a))
      → Keeps I (m >>= f)
  unfolding ◌>>=◌
  Keeps-bind {A} m f h k = record { at = λ w i. go (m w).0 (m w).1 (h.at w i) }
    where
      go : (o : Outcome A) (v : World) → I v → I (resume f o v).1
      go (returned a) v i = (k a).at v i
      go (raised e) v i = i
      go cut_off v i = i

  pub Keeps-catch :
      {A : Type 0} (m : Run A) (h : Exn → Run A)
      → Keeps I m
      → ((e : Exn) → Keeps I (h e))
      → Keeps I (catch m h)
  unfolding catch
  Keeps-catch {A} m h k l = record { at = λ w i. go (m w).0 (m w).1 (k.at w i) }
    where
      go : (o : Outcome A) (v : World) → I v → I (handle h o v).1
      go (returned a) v i = i
      go (raised e) v i = (l e).at v i
      go cut_off v i = i

  pub Keeps-modify :
      (f : Tx → Tx) → ((w : World) → I w → I (record w { tx = f w.tx })) → Keeps I (modify f)
  unfolding modify
  Keeps-modify f h = record { at = h }

  -- The invariant must not read the fates.
  pub Keeps-durable :
      (f : Disk → Disk)
      → ((w : World) (rest : List Fate) → I w → I (record w { fates = rest }))
      → ((w : World) → I w → I (record w { disk = f w.disk }))
      → Keeps I (durable f)
  unfolding durable durable_at
  Keeps-durable f blind h = record { at = λ w i. go w.fates w i }
    where
      go : (fs : List Fate) (w : World) → I w → I (durable_at fs f w).1
      go [] w i = h w i
      go (done ∷ rest) w i = h (record w { fates = rest }) (blind w rest i)
      go (raised_before ∷ rest) w i = blind w rest i
      go (raised_after ∷ rest) w i = h (record w { fates = rest }) (blind w rest i)
      go (cut_before ∷ rest) w i = blind w rest i
      go (cut_after ∷ rest) w i = h (record w { fates = rest }) (blind w rest i)

  pub Keeps-for_each :
      {A : Type 0} (xs : List A) (f : A → Run (Unit {0}))
      → ((x : A) → Keeps I (f x))
      → Keeps I (for_each xs f)
  unfolding for_each
  Keeps-for_each [] f h = Keeps-pure tt
  Keeps-for_each (x ∷ xs) f h = Keeps-bind (f x) _ (h x) (λ _. Keeps-for_each xs f h)

  pub Keeps-attempt : (m : Run (Unit {0})) → Keeps I m → Keeps I (attempt m)
  unfolding attempt
  Keeps-attempt m h =
      Keeps-catch _ _ (Keeps-bind m _ h (λ _. Keeps-pure true)) (λ e. Keeps-pure false)

  -- An invariant as a specification that does not tell the ends apart.
  pub Spec-Keeps : {A : Type 0} (m : Run A) → Keeps I m → Spec I m (λ _ w. I w) I
  Spec-Keeps {A} m h = record { at = λ w i. go (m w).0 (m w).1 (h.at w i) }
    where
      go : (o : Outcome A) (v : World) → I v → Ends (λ _ w. I w) I o v
      go (returned a) v i = i
      go (raised e) v i = i
      go cut_off v i = i

module _ {A B : Type 0} {P C : World → Type 0} where
  pub Spec-bind :
      {Q : A → World → Type 0} {R : B → World → Type 0} (m : Run A) (f : A → Run B)
      → Spec P m Q C
      → ((a : A) → Spec (Q a) (f a) R C)
      → Spec P (m >>= f) R C
  unfolding ◌>>=◌
  Spec-bind {Q} {R} m f h k = record { at = λ w p. go (m w).0 (m w).1 (h.at w p) }
    where
      go : (o : Outcome A) (v : World) → Ends Q C o v → Ends R C (resume f o v).0 (resume f o v).1
      go (returned a) v q = (k a).at v q
      go (raised e) v c = c
      go cut_off v c = c

module _ {A : Type 0} {P C : World → Type 0} where
  pub Spec-weaken :
      {P₀ C₀ : World → Type 0} {Q Q₀ : A → World → Type 0} (m : Run A)
      → Spec P₀ m Q₀ C₀
      → ((w : World) → P w → P₀ w)
      → ((a : A) (w : World) → Q₀ a w → Q a w)
      → ((w : World) → C₀ w → C w)
      → Spec P m Q C
  Spec-weaken {C₀} {Q} {Q₀} m h p q c = record { at = λ w i. go (m w).0 (m w).1 (h.at w (p w i)) }
    where
      go : (o : Outcome A) (v : World) → Ends Q₀ C₀ o v → Ends Q C o v
      go (returned a) v i = q a v i
      go (raised e) v i = c v i
      go cut_off v i = c v i

-- What a run ends in, whichever way it ends.
pub Spec-at :
    {A : Type 0} {P C : World → Type 0} (m : Run A) (w : World)
    → Spec P m (λ _ v. C v) C
    → P w
    → C (m w).1
Spec-at {A} {P} {C} m w h p = go (m w).0 (m w).1 (h.at w p)
  where
    go : (o : Outcome A) (v : World) → Ends (λ _ u. C u) C o v → C v
    go (returned a) v i = i
    go (raised e) v i = i
    go cut_off v i = i
