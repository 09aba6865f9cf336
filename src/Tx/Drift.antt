-- ===== src/Tx/Drift.antt =====
-- `recover` of deploy/bot/pdgtx.py on files that someone else has changed.
use proxy_gateway_plus.Prelude.{
  String, true, false, not, ◌&&◌, Option, none, some, List, [], ◌∷◌, ◌≡◌, refl, sym, ◌∙◌, ap, subst,
  ◌==◌, String_eq, ℕ_eq, Option_eq, if◌then◌else◌, arith, all, ◌⊎◌, inl, inr,
}
use proxy_gateway_plus.Tx.{needs_recovery, schema_version, Image, Meta, Disk, Files, Bytes, assoc}
use proxy_gateway_plus.Tx.Effect.{World, busy, refused, ◌>>=◌, pure, gets}
use proxy_gateway_plus.Tx.Assemble.{digest_of}
use proxy_gateway_plus.Tx.Commit.{Env, Lock, free, held, unusable}
use proxy_gateway_plus.Tx.Recover.{
  Verdict, drifted, broken, other_schema, finished, bad_material, conflict, before_digest,
  intended_of, is_broken, is_drifted, judge, judge_resolved, judge_all, decide, recover_locked,
  with_lock, recover_from, recover,
}
use proxy_gateway_plus.Tx.Rules.{Spec, Spec-bind, Spec-at}
use proxy_gateway_plus.Tx.Specs.{entry_of, Spec-pure, Spec-raise, Spec-if, Spec-read_target}

-- Some element of the list.
abbrev pub Some {ℓ} : {A : Type ℓ} → (A → Type 0) → List A → Type 0
Some P [] = ⊥
Some P (x ∷ xs) = P x ⊎ Some P xs

abbrev Same : Disk → World → Type 0
Same d w = w.disk ≡ d

abbrev Stops : Verdict → Type 0
Stops v = (is_broken v ≡ true) ⊎ (is_drifted v ≡ true)

module _ (env : Env) (m : Meta) (images : List (String × Image)) where
  -- What stands at the target is neither what was there before nor what the transaction meant to
  -- write.
  abbrev pub Stray : Files → String × String → Type 0
  Stray now n =
      (cur : Option Bytes)
      → now n.1 ≡ entry_of cur
      → ((digest_of env.sha cur == before_digest (assoc n.0 images)) ≡ false)
        × ((digest_of env.sha cur == intended_of (assoc n.0 m.intended)) ≡ false)

  Stray-drifted :
      (n : String × String) (cur : Option Bytes)
      → (digest_of env.sha cur == before_digest (assoc n.0 images)) ≡ false
      → (digest_of env.sha cur == intended_of (assoc n.0 m.intended)) ≡ false
      → judge env false (assoc n.0 m.intended) (assoc n.0 images) n.1 cur ≡ drifted
  unfolding judge
  Stray-drifted n cur h k = ground (arith, h, k)

  Spec-judge_resolved-Same :
      (d : Disk) (n : String × String) (o : Option String)
      → Spec
          (Same d)
          (judge_resolved env false m images n.0 n.1 o)
          (λ v w. Same d w × (Stray d.files n → Stops v))
          (Same d)
  unfolding judge_resolved is_broken is_drifted
  Spec-judge_resolved-Same d n none = Spec-pure broken (λ w h. (h, λ _. inl refl))
  Spec-judge_resolved-Same d n (some p) = Spec-bind _ _ (Spec-read_target n.1) (λ cur.
      Spec-pure _ (λ w h. (
        h.0,
        λ stray. inr (
            ap is_drifted (
              Stray-drifted n cur (stray cur (ap (λ k. k.files n.1) (sym h.0) ∙ h.1)).0
                (stray cur (ap (λ k. k.files n.1) (sym h.0) ∙ h.1)).1)),
      )))

  Spec-judge_all-Same :
      (d : Disk) (ns : List (String × String))
      → Spec
          (Same d)
          (judge_all env false m images ns)
          (λ vs w. Same d w × (Some (Stray d.files) ns → Some Stops vs))
          (Same d)
  unfolding judge_all
  Spec-judge_all-Same d [] = Spec-pure [] (λ w h. (h, λ none_there. none_there))
  Spec-judge_all-Same d (n ∷ ns) =
      Spec-bind _ _ (Spec-judge_resolved-Same d n (env.resolve n.0)) (λ v. record {
        at = λ w (h, here).
            (Spec-bind _ _ (Spec-judge_all-Same d ns) (λ vs.
                Spec-pure {Q = λ ws u. Same d u × (Some (Stray d.files) (n ∷ ns) → Some Stops ws)}
                  (v ∷ vs)
                  (λ u k.
                    (k.0, λ found. elim found [ inl f ↦ inl (here f) | inr f ↦ inr (k.1 f) ])))).at
              w h;
      })

  Stops-all :
      (vs : List Verdict)
      → Some Stops vs
      → (all (λ v. not (is_broken v)) vs ≡ true)
      → (all (λ v. not (is_drifted v)) vs ≡ true)
      → ⊥
  Stops-all [] s h k = s
  Stops-all (v ∷ vs) (inl (inl s)) h k = ground (arith, s, h)
  Stops-all (v ∷ vs) (inl (inr s)) h k = ground (arith, s, k)
  Stops-all (v ∷ vs) (inr s) h k = Stops-all vs s (ground (arith, h)) (ground (arith, k))

  Spec-decide-Same :
      (d : Disk) (vs : List Verdict)
      → Some Stops vs
      → Spec (Same d) (decide env false m vs) (λ _. Same d) (Same d)
  unfolding decide
  Spec-decide-Same d vs s =
      Spec-if (not (all (λ v. not (is_broken v)) vs)) _ _ (λ _. Spec-pure bad_material (λ w h. h))
        (λ sound.
          Spec-if (not (all (λ v. not (is_drifted v)) vs) && not false) _ _
            (λ _. Spec-pure conflict (λ w h. h))
            (λ kept. absurd (Stops-all vs s (ground (arith, sound)) (ground (arith, kept)))))

  Spec-recover_locked-Same :
      (d : Disk)
      → Some (Stray d.files) m.names
      → Spec (Same d) (recover_locked env false m images) (λ _. Same d) (Same d)
  unfolding recover_locked
  Spec-recover_locked-Same d s =
      Spec-bind _ _ (Spec-judge_all-Same d m.names)
        (λ vs. record { at = λ w (h, stops). (Spec-decide-Same d vs (stops s)).at w h })

  Spec-recover_from-Same :
      (d : Disk)
      → Some (Stray d.files) m.names
      → Spec (Same d) (recover_from env false (some m) (some images)) (λ _. Same d) (Same d)
  unfolding recover_from
  Spec-recover_from-Same d s =
      Spec-if (not (m.version == schema_version)) (pure other_schema)
        (if not (needs_recovery m.state)
          then pure (finished m.state)
          else with_lock env false env.lock (recover_locked env false m images))
        (λ _. Spec-pure other_schema (λ w h. h))
        (λ _.
          Spec-if (not (needs_recovery m.state)) _ _ (λ _. Spec-pure (finished m.state) (λ w h. h))
            (λ _. locked env.lock))
    where
      locked :
          (l : Lock)
          → Spec
              (Same d)
              (with_lock env false l (recover_locked env false m images))
              (λ _. Same d)
              (Same d)
      locked free = unfold with_lock in Spec-recover_locked-Same d s
      locked held = unfold with_lock in Spec-raise busy (λ w h. h)
      locked unusable = unfold with_lock in Spec-raise refused (λ w h. h)

-- Where what stands at some target of the record is neither what was there before nor what the
-- transaction meant to write, a recovery without `force` leaves the whole disk as it is.
pub recover-Stray :
    (env : Env) (w : World) (m : Meta) (images : List (String × Image))
    → w.disk.saved ≡ some m
    → w.disk.before ≡ some images
    → Some (Stray env m images w.disk.files) m.names
    → (recover env false w).1.disk ≡ w.disk
unfolding recover gets ◌>>=◌
recover-Stray env w m images saved index stray =
    subst (λ s. (recover_from env false s w.disk.before w).1.disk ≡ w.disk) (sym saved)
      (subst (λ i. (recover_from env false (some m) i w).1.disk ≡ w.disk) (sym index)
        (Spec-at {P = Same w.disk} {C = Same w.disk} (recover_from env false (some m) (some images))
          w (Spec-recover_from-Same env m images w.disk stray) refl))
