-- ===== src/Tx/Undone.antt =====
-- The second phase of `recover` in deploy/bot/pdgtx.py where nothing fails.
use proxy_gateway_plus.Prelude.{
  String, Bool, true, false, not, ◌&&◌, Option, none, some, List, [], ◌∷◌, ◌≡◌, ◌≢◌, refl, sym, ◌∙◌,
  ap, subst, All, ℕ_eq, if◌then◌else◌, arith, all,
}
use proxy_gateway_plus.Tx.{Files, Bytes, absent, regular, write, exists}
use proxy_gateway_plus.Tx.Effect.{World, pure, durable}
use proxy_gateway_plus.Tx.Assemble.{unlink}
use proxy_gateway_plus.Tx.Commit.{attempt}
use proxy_gateway_plus.Tx.Recover.{
  Step, Verdict, already, drifted, broken, restore, put_back, put_back_all, is_broken, is_drifted,
  steps_of,
}
use proxy_gateway_plus.Tx.Rules.{Spec, Spec-bind, Spec-weaken}
use proxy_gateway_plus.Tx.Specs.{Spec-pure, Spec-gets, Spec-catch}
use proxy_gateway_plus.Tx.Writes.{write-other}
use proxy_gateway_plus.Tx.Succeeds.{
  Never, Spec-durable_calm, Spec-require_met, Spec-Never, Fine, FineAll,
}

-- No two targets share a path.
abbrev pub Apart : List (String × String) → Type 0
Apart [] = Unit
Apart (n ∷ ns) = All (λ (k : String × String). n.1 ≢ k.1) ns × Apart ns

-- The files at these targets are still what they were.
abbrev pub Still : Files → List (String × String) → World → Type 0
Still now ns w = (w.fates ≡ []) × All (λ (n : String × String). w.disk.files n.1 ≡ now n.1) ns

Still-write :
    (now files : Files) (p : String) (e : _) (ns : List (String × String))
    → All (λ (k : String × String). p ≢ k.1) ns
    → All (λ (n : String × String). files n.1 ≡ now n.1) ns
    → All (λ (n : String × String). write p e files n.1 ≡ now n.1) ns
Still-write now files p e [] _ _ = tt
Still-write now files p e (n ∷ ns) (h, hs) (k, ks) =
    (write-other p n.1 e files h ∙ k, Still-write now files p e ns hs ks)

apart_from :
    (p q : String) (ns : List (String × String))
    → p ≡ q
    → All (λ (k : String × String). q ≢ k.1) ns
    → All (λ (k : String × String). p ≢ k.1) ns
apart_from p q ns e h = subst (λ r. All (λ (k : String × String). r ≢ k.1) ns) (sym e) h

Spec-put_back-Fine :
    (now : Files) (n : String × String) (ns : List (String × String)) (s : Step)
    → Fine now n (restore s)
    → All (λ (k : String × String). n.1 ≢ k.1) ns
    → Spec (Still now (n ∷ ns)) (put_back s) (λ _. Still now ns) Never
unfolding put_back unlink
Spec-put_back-Fine now n ns s (at, there) apart = go s.bytes s.there there
  where
    go :
        (b : Option Bytes) (up : Bool)
        → (b ≡ none → exists (now n.1) ≡ true)
        → Spec
            (Still now (n ∷ ns))
            (elim b [
              | some d ↦ durable (λ k. record k { files = write s.path (regular d) k.files })
              | none ↦ if up then unlink s.path else pure tt
            ])
            (λ _. Still now ns)
            Never
    go (some d) up h =
        Spec-durable_calm _ (λ w k. k.0)
          (λ w k. (
            k.0,
            Still-write now w.disk.files s.path (regular d) ns (apart_from s.path n.1 ns at apart)
                k.1.1,
          ))
    go none false h = Spec-pure tt (λ w k. (k.0, k.1.1))
    go none true h =
        Spec-bind _ _
          (Spec-gets {Q = λ found w. Still now (n ∷ ns) w × (found ≡ exists (w.disk.files s.path))}
            _ (λ w k. (k, refl)))
          (λ found.
            Spec-bind _ _
              (Spec-require_met {Q = λ _. Still now (n ∷ ns)} found _
                (λ w k. k.1 ∙ ap (λ p. exists (w.disk.files p)) at ∙ ap exists k.0.1.0 ∙ h refl)
                (λ w k. k.0))
              (λ _.
                Spec-durable_calm _ (λ w k. k.0)
                  (λ w k. (
                    k.0,
                    Still-write now w.disk.files s.path absent ns
                        (apart_from s.path n.1 ns at apart) k.1.1,
                  ))))

Spec-attempt-Fine :
    (now : Files) (n : String × String) (ns : List (String × String)) (s : Step)
    → Fine now n (restore s)
    → All (λ (k : String × String). n.1 ≢ k.1) ns
    → Spec (Still now (n ∷ ns)) (attempt (put_back s)) (λ ok w. Still now ns w × (ok ≡ true)) Never
unfolding attempt
Spec-attempt-Fine now n ns s fine apart =
    Spec-catch _ _
      (Spec-bind _ _ (Spec-put_back-Fine now n ns s fine apart)
        (λ _. Spec-pure true (λ w k. (k, refl))))
      (λ e. Spec-Never _)

pub Spec-put_back_all-Fine :
    (now : Files) (ns : List (String × String)) (vs : List Verdict)
    → FineAll now ns vs
    → Apart ns
    → Spec (Still now ns) (put_back_all (steps_of vs)) (λ ok w. (w.fates ≡ []) × (ok ≡ true)) Never
unfolding put_back_all steps_of
Spec-put_back_all-Fine now [] [] f a = Spec-pure true (λ w k. (k.0, refl))
Spec-put_back_all-Fine now [] (v ∷ vs) f a = absurd f
Spec-put_back_all-Fine now (n ∷ ns) [] f a = absurd f
Spec-put_back_all-Fine now (n ∷ ns) (already ∷ vs) f a =
    Spec-weaken _ (Spec-put_back_all-Fine now ns vs f.1 a.1) (λ w k. (k.0, k.1.1)) (λ ok w k. k)
      (λ w k. k)
Spec-put_back_all-Fine now (n ∷ ns) (drifted ∷ vs) f a = absurd f.0
Spec-put_back_all-Fine now (n ∷ ns) (broken ∷ vs) f a = absurd f.0
Spec-put_back_all-Fine now (n ∷ ns) (restore s ∷ vs) f a =
    Spec-bind _ _ (Spec-attempt-Fine now n ns s f.0 a.0) (λ here. record {
      at = λ w (k, good).
          (Spec-bind _ _ (Spec-put_back_all-Fine now ns vs f.1 a.1) (λ later.
              Spec-pure {Q = λ ok u. (u.fates ≡ []) × (ok ≡ true)} (here && later)
                (λ u i. (i.0, both here later good i.1)))).at
            w k;
    })
  where
    both : (a b : Bool) → a ≡ true → b ≡ true → (a && b) ≡ true
    both a b h i = ground (arith, h, i)

pub Still-start :
    (now files : Files) (ns : List (String × String))
    → files ≡ now
    → All (λ (n : String × String). files n.1 ≡ now n.1) ns
Still-start now files [] e = tt
Still-start now files (n ∷ ns) e = (ap (λ f. f n.1) e, Still-start now files ns e)

pub Fine-judged :
    (now : Files) (ns : List (String × String)) (vs : List Verdict)
    → FineAll now ns vs
    → (all (λ v. not (is_broken v)) vs ≡ true) × (all (λ v. not (is_drifted v)) vs ≡ true)
unfolding is_broken is_drifted
Fine-judged now [] [] f = (refl, refl)
Fine-judged now [] (v ∷ vs) f = absurd f
Fine-judged now (n ∷ ns) [] f = absurd f
Fine-judged now (n ∷ ns) (already ∷ vs) f = Fine-judged now ns vs f.1
Fine-judged now (n ∷ ns) (restore s ∷ vs) f = Fine-judged now ns vs f.1
Fine-judged now (n ∷ ns) (drifted ∷ vs) f = absurd f.0
Fine-judged now (n ∷ ns) (broken ∷ vs) f = absurd f.0
