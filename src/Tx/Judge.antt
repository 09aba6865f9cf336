-- ===== src/Tx/Judge.antt =====
-- The first phase of `recover` in deploy/bot/pdgtx.py: what its verdicts mean.
use proxy_gateway_plus.Prelude.{
  String, Bool, true, false, not, Option, none, some, List, [], ◌∷◌, ◌≡◌, ◌≢◌, refl, sym, ◌∙◌, ap,
  subst, All, ◌==◌, String_eq, Option_eq, option_beq, if◌then◌else◌, if-split, ==_iff, arith, inl,
  inr, all,
}
use proxy_gateway_plus.Tx.{Image, Meta, Digest, Files, Bytes, absent, regular, assoc}
use proxy_gateway_plus.Tx.Effect.{World}
use proxy_gateway_plus.Tx.Commit.{Env, image_of}
use proxy_gateway_plus.Tx.Recover.{
  Step, Verdict, already, drifted, broken, restore, before_digest, is_broken, is_drifted, steps_of,
  with_material, judge, judge_resolved, judge_all,
}
use proxy_gateway_plus.Tx.Rules.{Spec, Spec-bind, Spec-weaken}
use proxy_gateway_plus.Tx.Specs.{entry_of, Spec-pure, Spec-read_target}
use proxy_gateway_plus.Tx.Journal.{Elsewhere, Imaged}
use proxy_gateway_plus.Tx.Rollback.{Restored}
use proxy_gateway_plus.Tx.Mended.{Separates, Right}

-- What a verdict on a target says when the files are these.
abbrev pub Fair : Bool → Files → List (String × String) → Files → String × String → Verdict → Type 0
Fair force files names now n already = Restored files now n
Fair force files names now n (restore s) = Right files names s × (s.path ≡ n.1)
Fair force files names now n drifted = force ≡ false
Fair force files names now n broken = Unit

-- The verdicts on a list of targets.
abbrev pub FairAll :
    Bool → Files → List (String × String) → Files → List (String × String) → List Verdict → Type 0
FairAll force files names now [] [] = Unit
FairAll force files names now (n ∷ ns) (v ∷ vs) =
    Fair force files names now n v × FairAll force files names now ns vs
FairAll force files names now _ _ = ⊥

-- A target that was not there, and one that was.
removal : String → Verdict
removal path = restore (record { path = path; bytes = none; there = true })

rewrite : String → Bytes → Bool → Verdict
rewrite path b there = restore (record { path = path; bytes = some b; there = there })

module _ (env : Env) (force : Bool) (files : Files) (names : List (String × String)) where
  Fair-rewrite :
      (now : Files) (n : String × String) (b : Bytes) (there : Bool)
      → ((p : String) → Elsewhere p names → n.1 ≢ p)
      → files n.1 ≡ regular b
      → Fair force files names now n (rewrite n.1 b there)
  unfolding rewrite
  Fair-rewrite now n b there covered before =
      (record { covered = covered; contents = inr (b, refl, before) }, refl)

  Fair-removal :
      (now : Files) (n : String × String)
      → ((p : String) → Elsewhere p names → n.1 ≢ p)
      → files n.1 ≡ absent
      → Fair force files names now n (removal n.1)
  unfolding removal
  Fair-removal now n covered before =
      (record { covered = covered; contents = inl (refl, before, refl) }, refl)

  -- A verdict says the truth about the files, whatever `force` is.
  Fair-judge :
      (now : Files) (intended : Option (Option Digest)) (n : String × String) (c cur : Option Bytes)
      → Separates env
      → ((p : String) → Elsewhere p names → n.1 ≢ p)
      → files n.1 ≡ entry_of c
      → now n.1 ≡ entry_of cur
      → Fair force files names now n (judge env force intended (some (image_of env c)) n.1 cur)
  unfolding judge image_of before_digest option_beq with_material removal rewrite
  Fair-judge now intended n none none sep covered before after = after ∙ sym before
  Fair-judge now intended n none (some d) sep covered before after =
      if-split (Fair force files names now n) _ drifted (removal n.1) (λ off. ground (arith, off))
        (λ _. Fair-removal now n covered before)
  Fair-judge now intended n (some b) none sep covered before after =
      if-split (Fair force files names now n) _ drifted
        (if env.sha b == env.sha b then rewrite n.1 b false else broken)
        (λ off. ground (arith, off))
        (λ _.
          if-split (Fair force files names now n) _ (rewrite n.1 b false) broken
            (λ _. Fair-rewrite now n b false covered before) (λ _. tt))
  Fair-judge now intended n (some b) (some d) sep covered before after =
      if-split (Fair force files names now n) _ already _
        (λ same.
          after ∙ ap regular (sep d b ((==_iff (env.sha d) (env.sha b)).0 same)) ∙ sym before)
        (λ _.
          if-split (Fair force files names now n) _ drifted
            (if env.sha b == env.sha b then rewrite n.1 b true else broken)
            (λ off. ground (arith, off))
            (λ _.
              if-split (Fair force files names now n) _ (rewrite n.1 b true) broken
                (λ _. Fair-rewrite now n b true covered before) (λ _. tt)))

  module _ (m : Meta) (images : List (String × Image)) (sep : Separates env) where
    Spec-judge_resolved :
        {P : World → Type 0} (n : String × String) (known : Option String)
        → ((p : String) → Elsewhere p names → n.1 ≢ p)
        → Imaged env files images n
        → Spec P
            (judge_resolved env force m images n.0 n.1 known)
            (λ v w. P w × Fair force files names w.disk.files n v)
            P
    unfolding judge_resolved
    Spec-judge_resolved n none covered i = Spec-pure broken (λ w h. (h, tt))
    Spec-judge_resolved n (some p) covered (c, before, found) =
        Spec-bind _ _ (Spec-read_target n.1) (λ cur. Spec-pure _ (λ w h. (
          h.0,
          subst
              (λ i.
                Fair force files names w.disk.files n
                  (judge env force (assoc n.0 m.intended) i n.1 cur))
              (sym found)
              (Fair-judge w.disk.files (assoc n.0 m.intended) n c cur sep covered before h.1),
        )))

    -- All the verdicts are true, and nothing was changed to reach them.
    pub Spec-judge_all :
        (ns : List (String × String)) {P : World → Type 0}
        → All (λ n. (p : String) → Elsewhere p names → n.1 ≢ p) ns
        → All (Imaged env files images) ns
        → Spec P
            (judge_all env force m images ns)
            (λ vs w. P w × FairAll force files names w.disk.files ns vs)
            P
    unfolding judge_all
    Spec-judge_all [] _ _ = Spec-pure [] (λ w h. (h, tt))
    Spec-judge_all (n ∷ ns) (c, cs) (i, is) =
        Spec-bind _ _ (Spec-judge_resolved n (env.resolve n.0) c i) (λ v.
          Spec-bind _ _
            (Spec-weaken _ (Spec-judge_all ns cs is) (λ w h. h) (λ vs w h. h) (λ w h. h.0))
            (λ vs. Spec-pure _ (λ w h. (h.0.0, (h.0.1, h.1)))))

pub covered_names :
    (names ns : List (String × String))
    → ((p : String) → Elsewhere p names → Elsewhere p ns)
    → All (λ n. (p : String) → Elsewhere p names → n.1 ≢ p) ns
covered_names names [] h = tt
covered_names names (n ∷ ns) h = ((λ p e. (h p e).0), covered_names names ns (λ p e. (h p e).1))

-- The targets found as they were.
abbrev pub as_they_were : List (String × String) → List Verdict → List (String × String)
as_they_were (n ∷ ns) (already ∷ vs) = n ∷ as_they_were ns vs
as_they_were (n ∷ ns) (_ ∷ vs) = as_they_were ns vs
as_they_were _ _ = []

module _ (force : Bool) (files : Files) (names : List (String × String)) where
  pub Fair-steps_of :
      (now : Files) (ns : List (String × String)) (vs : List Verdict)
      → FairAll force files names now ns vs
      → All (Right files names) (steps_of vs)
  unfolding steps_of
  Fair-steps_of now [] [] f = tt
  Fair-steps_of now (n ∷ ns) (already ∷ vs) f = Fair-steps_of now ns vs f.1
  Fair-steps_of now (n ∷ ns) (drifted ∷ vs) f = Fair-steps_of now ns vs f.1
  Fair-steps_of now (n ∷ ns) (broken ∷ vs) f = Fair-steps_of now ns vs f.1
  Fair-steps_of now (n ∷ ns) (restore s ∷ vs) f = (f.0.0, Fair-steps_of now ns vs f.1)
  Fair-steps_of now [] (v ∷ vs) f = absurd f
  Fair-steps_of now (n ∷ ns) [] f = absurd f

  pub Fair-already :
      (now : Files) (ns : List (String × String)) (vs : List Verdict)
      → FairAll force files names now ns vs
      → All (Restored files now) (as_they_were ns vs)
  Fair-already now [] [] f = tt
  Fair-already now (n ∷ ns) (already ∷ vs) f = (f.0, Fair-already now ns vs f.1)
  Fair-already now (n ∷ ns) (drifted ∷ vs) f = Fair-already now ns vs f.1
  Fair-already now (n ∷ ns) (broken ∷ vs) f = Fair-already now ns vs f.1
  Fair-already now (n ∷ ns) (restore s ∷ vs) f = Fair-already now ns vs f.1
  Fair-already now [] (v ∷ vs) f = absurd f
  Fair-already now (n ∷ ns) [] f = absurd f

  -- Without a verdict against it, every target is back once the steps are made.
  pub Fair-back :
      (before now : Files) (ns : List (String × String)) (vs : List Verdict)
      → FairAll force files names before ns vs
      → all (λ v. not (is_broken v)) vs ≡ true
      → all (λ v. not (is_drifted v)) vs ≡ true
      → All (Restored files now) (as_they_were ns vs)
      → All (λ (s : Step). now s.path ≡ files s.path) (steps_of vs)
      → All (Restored files now) ns
  unfolding steps_of is_broken is_drifted
  Fair-back before now [] [] f b d r s = tt
  Fair-back before now (n ∷ ns) (already ∷ vs) f b d r s =
      (r.0, Fair-back before now ns vs f.1 b d r.1 s)
  Fair-back before now (n ∷ ns) (restore step ∷ vs) f b d r s =
      (subst (λ p. now p ≡ files p) f.0.1 s.0, Fair-back before now ns vs f.1 b d r s.1)
  Fair-back before now (n ∷ ns) (drifted ∷ vs) f b d r s = cc
  Fair-back before now (n ∷ ns) (broken ∷ vs) f b d r s = cc
  Fair-back before now [] (v ∷ vs) f b d r s = absurd f
  Fair-back before now (n ∷ ns) [] f b d r s = absurd f

  -- `force` leaves no target to be drifted.
  pub Fair-undrifted :
      (now : Files) (ns : List (String × String)) (vs : List Verdict)
      → force ≡ true
      → FairAll force files names now ns vs
      → all (λ v. not (is_drifted v)) vs ≡ true
  unfolding is_drifted
  Fair-undrifted now [] [] on f = refl
  Fair-undrifted now (n ∷ ns) (already ∷ vs) on f = Fair-undrifted now ns vs on f.1
  Fair-undrifted now (n ∷ ns) (restore step ∷ vs) on f = Fair-undrifted now ns vs on f.1
  Fair-undrifted now (n ∷ ns) (drifted ∷ vs) on f = absurd (ground (arith, on, f.0))
  Fair-undrifted now (n ∷ ns) (broken ∷ vs) on f = Fair-undrifted now ns vs on f.1
  Fair-undrifted now [] (v ∷ vs) on f = absurd f
  Fair-undrifted now (n ∷ ns) [] on f = absurd f
