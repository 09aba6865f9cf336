-- ===== src/Tx/Mended.antt =====
-- `recover` of deploy/bot/pdgtx.py: judging only reads, and putting back is undone by nothing.
use proxy_gateway_plus.Prelude.{
  String, Bool, true, false, ◌&&◌, Option, none, some, List, [], ◌∷◌, ◌≡◌, ◌≢◌, sym, ◌∙◌, All,
  String_eq, Option_eq, if◌then◌else◌, ◌⊎◌, inl, inr,
}
use proxy_gateway_plus.Tx.{Image, Meta, Files, Bytes, Entry, absent, regular, write}
use proxy_gateway_plus.Tx.Effect.{Fate, World, ◌>>=◌, pure, durable}
use proxy_gateway_plus.Tx.Assemble.{unlink}
use proxy_gateway_plus.Tx.Commit.{Env, attempt}
use proxy_gateway_plus.Tx.Recover.{Step, put_back, put_back_all}
use proxy_gateway_plus.Tx.Rules.{Spec, Spec-bind, Spec-weaken}
use proxy_gateway_plus.Tx.Specs.{
  Spec-pure, Spec-gets, Spec-if, Spec-catch, Spec-require, Spec-durable,
}
use proxy_gateway_plus.Tx.Journal.{Elsewhere}
use proxy_gateway_plus.Tx.Writes.{write-other, write-same}
use proxy_gateway_plus.Tx.Rollback.{Restored, write-All-Restored}

-- No two contents share a digest.
abbrev pub Separates : Env → Type 0
Separates env = (d e : Bytes) → env.sha d ≡ env.sha e → d ≡ e

-- The record of an interrupted transaction.
pub record Held (files : Files) (m : Meta) (images : List (String × Image)) (w : World)
    : Type 0 where
  pub saved_is : w.disk.saved ≡ some m
  pub index : w.disk.before ≡ some images
  pub others_kept : (p : String) → Elsewhere p m.names → w.disk.files p ≡ files p

-- A step that puts a target back as it was.
pub record Right (files : Files) (names : List (String × String)) (s : Step) : Type 0 where
  pub covered : (p : String) → Elsewhere p names → s.path ≢ p
  pub contents :
      ((s.bytes ≡ none) × (files s.path ≡ absent) × (s.there ≡ true))
      ⊎ ((d : Bytes) × (s.bytes ≡ some d) × (files s.path ≡ regular d))

module _ (files : Files) (m : Meta) (images : List (String × Image)) where
  abbrev H : World → Type 0
  H = Held files m images

  H-fates : (w : World) (rest : List Fate) → H w → H (record w { fates = rest })
  H-fates w rest h = record { saved_is = h.saved_is; index = h.index; others_kept = h.others_kept }

  H-write :
      (path : String) (e : Entry) (w : World)
      → ((p : String) → Elsewhere p m.names → path ≢ p)
      → H w
      → H (record w { disk = record w.disk { files = write path e w.disk.files } })
  H-write path e w covered h = record {
    saved_is = h.saved_is;
    index = h.index;
    others_kept = λ p els. write-other path p e w.disk.files (covered p els) ∙ h.others_kept p els;
  }

  abbrev pub Mending : List (String × String) → World → Type 0
  Mending done w = H w × All (Restored files w.disk.files) done

  Spec-write_back :
      (done : List (String × String)) (path : String) (e : Entry)
      → ((p : String) → Elsewhere p m.names → path ≢ p)
      → files path ≡ e
      → Spec
          (Mending done)
          (durable (λ k. record k { files = write path e k.files }))
          (λ _. Mending ((path, path) ∷ done))
          (Mending done)
  Spec-write_back done path e covered at =
      Spec-durable _ (λ w rest h. (H-fates w rest h.0, h.1))
        (λ w h. (
          H-write path e w covered h.0,
          (
            write-same path e w.disk.files ∙ sym at,
            write-All-Restored files w.disk.files path e done at h.1,
          ),
        ))
        (λ w h. h)
        (λ w h.
          (H-write path e w covered h.0, write-All-Restored files w.disk.files path e done at h.1))

  Spec-unlink :
      (done : List (String × String)) (path : String)
      → ((p : String) → Elsewhere p m.names → path ≢ p)
      → files path ≡ absent
      → Spec (Mending done) (unlink path) (λ _. Mending ((path, path) ∷ done)) (Mending done)
  unfolding unlink
  Spec-unlink done path covered at =
      Spec-bind _ _ (Spec-gets {Q = λ _. Mending done} _ (λ w h. h)) (λ there.
        Spec-bind _ _ (Spec-require {Q = λ _. Mending done} _ _ (λ _ w h. h) (λ w h. h))
          (λ _. Spec-write_back done path absent covered at))

  Spec-put_back :
      (done : List (String × String)) (s : Step)
      → Right files m.names s
      → Spec (Mending done) (put_back s) (λ _. Mending ((s.path, s.path) ∷ done)) (Mending done)
  unfolding put_back
  Spec-put_back done s r = go s.bytes s.there r.contents
    where
      go :
          (b : Option Bytes) (there : Bool)
          → ((b ≡ none) × (files s.path ≡ absent) × (there ≡ true))
            ⊎ ((d : Bytes) × (b ≡ some d) × (files s.path ≡ regular d))
          → Spec
              (Mending done)
              (elim b [
                | some d ↦ durable (λ k. record k { files = write s.path (regular d) k.files })
                | none ↦ if there then unlink s.path else pure tt
              ])
              (λ _. Mending ((s.path, s.path) ∷ done))
              (Mending done)
      go (some d) there (inl h) = cc
      go (some d) there (inr (e, same, at)) =
          Spec-write_back done s.path (regular d) r.covered (at ∙ cc)
      go none there (inl (_, at, up)) =
          Spec-if there _ _ (λ _. Spec-unlink done s.path r.covered at) (λ down. cc)
      go none there (inr (e, same, at)) = cc

  StepsBack : List Step → World → Type 0
  StepsBack steps w = All (λ (s : Step). w.disk.files s.path ≡ files s.path) steps

  with_step : Bool → Step → List (String × String) → List (String × String)
  with_step true s done = (s.path, s.path) ∷ done
  with_step false s done = done

  Spec-attempt :
      (done : List (String × String)) (s : Step)
      → Right files m.names s
      → Spec
          (Mending done)
          (attempt (put_back s))
          (λ ok. Mending (with_step ok s done))
          (Mending done)
  unfolding attempt with_step
  Spec-attempt done s r =
      Spec-catch _ _ (Spec-bind _ _ (Spec-put_back done s r) (λ _. Spec-pure true (λ w h. h)))
        (λ e. Spec-pure false (λ w h. h))

  AllMended : List (String × String) → List Step → Bool → World → Type 0
  AllMended done steps ok w = Mending done w × (ok ≡ true → StepsBack steps w)

  next_steps :
      (done : List (String × String)) (s : Step) (steps : List Step) (here : Bool)
      → ((d : List (String × String)) → Spec (Mending d) (put_back_all steps) (AllMended d steps) H)
      → Spec
          (Mending (with_step here s done))
          (do later ← put_back_all steps; pure (here && later))
          (AllMended done (s ∷ steps))
          H
  unfolding with_step AllMended StepsBack
  next_steps done s steps true rest =
      Spec-bind _ _ (rest ((s.path, s.path) ∷ done))
        (λ later. Spec-pure _ (λ w h. ((h.0.0, h.0.1.1), λ ok. (h.0.1.0, h.1 ok))))
  next_steps done s steps false rest =
      Spec-bind _ _ (rest done) (λ later. Spec-pure _ (λ w h. (h.0, λ ok. cc)))

  -- What was back stays back, and a report of success means that every step is made.
  pub Spec-put_back_all :
      (done : List (String × String)) (steps : List Step)
      → All (Right files m.names) steps
      → Spec
          (Mending done)
          (put_back_all steps)
          (λ ok w.
            Mending done w
            × (ok ≡ true → All (λ (s : Step). w.disk.files s.path ≡ files s.path) steps))
          H
  unfolding put_back_all AllMended StepsBack
  Spec-put_back_all done [] _ = Spec-pure true (λ w h. (h, λ _. tt))
  Spec-put_back_all done (s ∷ steps) (r, rs) =
      Spec-bind _ _ (Spec-weaken _ (Spec-attempt done s r) (λ w h. h) (λ ok w h. h) (λ w h. h.0))
        (λ here. next_steps done s steps here (λ d. Spec-put_back_all d steps rs))
