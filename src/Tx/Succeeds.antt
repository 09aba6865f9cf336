-- ===== src/Tx/Succeeds.antt =====
-- `recover` of deploy/bot/pdgtx.py where nothing fails: it does put everything back.
use proxy_gateway_plus.Prelude.{
  String, Bool, true, false, not, ◌&&◌, ◌||◌, Option, none, some, List, [], ◌∷◌, ◌≡◌, refl, sym,
  ◌∙◌, ap, subst, All, ◌==◌, String_eq, Option_eq, ℕ_eq, option_beq, if◌then◌else◌, if-split,
  ==_refl, arith,
}
use proxy_gateway_plus.Tx.{Image, Meta, Disk, Digest, Files, Bytes, assoc, exists}
use proxy_gateway_plus.Tx.Effect.{
  Fate, World, Run, Exn, ◌>>=◌, pure, gets, require, durable, durable_at,
}
use proxy_gateway_plus.Tx.Assemble.{read_entry, read_target, digest_of}
use proxy_gateway_plus.Tx.Commit.{Env, image_of}
use proxy_gateway_plus.Tx.Recover.{
  Verdict, already, drifted, broken, restore, before_digest, intended_of, with_material, judge,
  judge_resolved, judge_all,
}
use proxy_gateway_plus.Tx.Rules.{Ends, Spec, Spec-bind}
use proxy_gateway_plus.Tx.Specs.{entry_of, Spec-pure}

-- Runs that neither raise nor are cut off.
abbrev pub Never : World → Type 0
Never w = ⊥

pub Spec-require_met :
    {P : World → Type 0} {Q : Unit {0} → World → Type 0} (b : Bool) (e : Exn)
    → ((w : World) → P w → b ≡ true)
    → ((w : World) → P w → Q tt w)
    → Spec P (require b e) Q Never
unfolding require
Spec-require_met true e h q = record { at = q }
Spec-require_met false e h q = record { at = λ w p. absurd (ground (arith, h w p)) }

-- A precondition that never holds.
pub Spec-Never :
    {A : Type 0} {Q : A → World → Type 0} {C : World → Type 0} (m : Run A) → Spec Never m Q C
Spec-Never m = record { at = λ w p. absurd p }

pub Spec-durable_calm :
    {P : World → Type 0} {Q : Unit {0} → World → Type 0} (f : Disk → Disk)
    → ((w : World) → P w → w.fates ≡ [])
    → ((w : World) → P w → Q tt (record w { disk = f w.disk }))
    → Spec P (durable f) Q Never
unfolding durable durable_at
Spec-durable_calm {P} {Q} f quiet done = record { at = λ w p. go w.fates w (quiet w p) (done w p) }
  where
    go :
        (fs : List Fate) (w : World)
        → fs ≡ []
        → Q tt (record w { disk = f w.disk })
        → Ends Q Never (durable_at fs f w).0 (durable_at fs f w).1
    go [] w e q = q
    go (x ∷ rest) w e q = cc

Spec-read_calm :
    {P : World → Type 0} (path : String) (cur : Option Bytes)
    → ((w : World) → P w → w.disk.files path ≡ entry_of cur)
    → Spec P (read_target path) (λ c w. P w × (c ≡ cur)) Never
unfolding read_target gets ◌>>=◌
Spec-read_calm {P} path cur stands = record {
  at = λ w p.
      subst (λ e. Ends (λ c v. P v × (c ≡ cur)) Never (read_entry e w).0 (read_entry e w).1)
        (sym (stands w p)) (go cur refl w p);
}
  where
    go :
        (c : Option Bytes)
        → c ≡ cur
        → (w : World) → P w
        → Ends
            (λ d v. P v × (d ≡ cur))
            Never
            (read_entry (entry_of c) w).0
            (read_entry (entry_of c) w).1
    go none e w p = unfold read_entry pure in (p, e)
    go (some b) e w p = unfold read_entry pure in (p, e)

-- A verdict on which the second phase acts without fail.
abbrev pub Fine : Files → String × String → Verdict → Type 0
Fine now n already = Unit
Fine now n (restore s) = (s.path ≡ n.1) × (s.bytes ≡ none → exists (now n.1) ≡ true)
Fine now n drifted = ⊥
Fine now n broken = ⊥

abbrev pub FineAll : Files → List (String × String) → List Verdict → Type 0
FineAll now [] [] = Unit
FineAll now (n ∷ ns) (v ∷ vs) = Fine now n v × FineAll now ns vs
FineAll now _ _ = ⊥

-- Nothing is left to fail, and the files are these.
abbrev pub At : Files → World → Type 0
At now w = (w.fates ≡ []) × (w.disk.files ≡ now)

module _ (env : Env) (force : Bool) (m : Meta) (images : List (String × Image)) where
  -- The target stands on the whitelist, its before-image can be read, and its contents are those
  -- of before or those that the transaction meant to write, unless `force` is given.
  pub record Clear (now : Files) (n : String × String) : Type 0 where
    pub known : (p : String) × (env.resolve n.0 ≡ some p)
    pub was : Option Bytes
    pub is : Option Bytes
    pub image : assoc n.0 images ≡ some (image_of env was)
    pub stands : now n.1 ≡ entry_of is
    pub agreed :
        ((force || digest_of env.sha is == intended_of (assoc n.0 m.intended))
          || digest_of env.sha is == before_digest (some (image_of env was)))
        ≡ true

  no_mismatch : (a b c : Bool) → ((a || b) || c) ≡ true → c ≡ false → (not a && not b) ≡ true → ⊥
  no_mismatch true b c h k i = ground (arith, i)
  no_mismatch false true c h k i = ground (arith, i)
  no_mismatch false false true h k i = ground (arith, k)
  no_mismatch false false false h k i = ground (arith, h)

  Fine-judge :
      (now : Files) (n : String × String) (intended : Option (Option Digest)) (c cur : Option Bytes)
      → now n.1 ≡ entry_of cur
      → ((force || digest_of env.sha cur == intended_of intended)
          || digest_of env.sha cur == before_digest (some (image_of env c)))
        ≡ true
      → Fine now n (judge env force intended (some (image_of env c)) n.1 cur)
  unfolding judge image_of before_digest option_beq with_material
  Fine-judge now n intended none none stands agreed = tt
  Fine-judge now n intended none (some d) stands agreed =
      if-split (Fine now n) (not force && not (some (env.sha d) == intended_of intended)) drifted
        (restore (record { path = n.1; bytes = none; there = true }))
        (λ off. no_mismatch force (some (env.sha d) == intended_of intended) false agreed refl off)
        (λ _. (refl, λ _. ap exists stands))
  Fine-judge now n intended (some b) none stands agreed =
      if-split (Fine now n) (not force && not (none == intended_of intended)) drifted
        (if env.sha b == env.sha b
          then restore (record { path = n.1; bytes = some b; there = false })
          else broken)
        (λ off. no_mismatch force (none == intended_of intended) false agreed refl off)
        (λ _.
          if-split (Fine now n) (env.sha b == env.sha b)
            (restore (record { path = n.1; bytes = some b; there = false })) broken
            (λ _. (refl, λ e. cc)) (λ off. ground (arith, off, ==_refl (env.sha b))))
  Fine-judge now n intended (some b) (some d) stands agreed =
      if-split (Fine now n) (env.sha d == env.sha b) already _ (λ _. tt)
        (λ other.
          if-split (Fine now n) (not force && not (some (env.sha d) == intended_of intended))
            drifted
            (if env.sha b == env.sha b
              then restore (record { path = n.1; bytes = some b; there = true })
              else broken)
            (λ off.
              no_mismatch force (some (env.sha d) == intended_of intended) (env.sha d == env.sha b)
                agreed other off)
            (λ _.
              if-split (Fine now n) (env.sha b == env.sha b)
                (restore (record { path = n.1; bytes = some b; there = true })) broken
                (λ _. (refl, λ e. cc)) (λ off. ground (arith, off, ==_refl (env.sha b)))))

  Spec-judge_resolved-Fine :
      (now : Files) (n : String × String) (o : Option String)
      → Clear now n
      → env.resolve n.0 ≡ o
      → Spec
          (At now)
          (judge_resolved env force m images n.0 n.1 o)
          (λ v w. At now w × Fine now n v)
          Never
  unfolding judge_resolved
  Spec-judge_resolved-Fine now n none clear e = absurd (some_none clear.known e)
    where
      some_none : {o : Option String} → ((p : String) × (o ≡ some p)) → o ≡ none → ⊥
      some_none (p, i) j = cc
  Spec-judge_resolved-Fine now n (some p) clear e =
      Spec-bind _ _ (Spec-read_calm n.1 clear.is (λ w h. ap (λ f. f n.1) h.1 ∙ clear.stands))
        (λ cur. Spec-pure _ (λ w h. (
          h.0,
          subst (λ c. Fine now n (judge env force (assoc n.0 m.intended) (assoc n.0 images) n.1 c))
              (sym h.1)
              (subst (λ i. Fine now n (judge env force (assoc n.0 m.intended) i n.1 clear.is))
                (sym clear.image)
                (Fine-judge now n (assoc n.0 m.intended) clear.was clear.is clear.stands
                  clear.agreed)),
        )))

  -- The first phase finds nothing to stop at.
  pub Spec-judge_all-Fine :
      (now : Files) (ns : List (String × String))
      → All (Clear now) ns
      → Spec (At now) (judge_all env force m images ns) (λ vs w. At now w × FineAll now ns vs) Never
  unfolding judge_all
  Spec-judge_all-Fine now [] _ = Spec-pure [] (λ w h. (h, tt))
  Spec-judge_all-Fine now (n ∷ ns) (c, cs) =
      Spec-bind _ _ (Spec-judge_resolved-Fine now n (env.resolve n.0) c refl) (λ v. record {
        at = λ w (h, f).
            (Spec-bind {Q = λ vs u. At now u × FineAll now ns vs} _ _
                (Spec-judge_all-Fine now ns cs)
                (λ vs.
                  Spec-pure {Q = λ ws u. At now u × FineAll now (n ∷ ns) ws} (v ∷ vs)
                    (λ u k. (k.0, (f, k.1))))).at
              w h;
      })
