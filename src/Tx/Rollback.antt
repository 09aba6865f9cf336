-- ===== src/Tx/Rollback.antt =====
-- `Tx._rollback` of deploy/bot/pdgtx.py: a file that is put back stays put back.
use proxy_gateway_plus.Prelude.{
  String, Bool, true, false, ◌&&◌, Option, none, some, List, [], ◌∷◌, ◌≡◌, refl, sym, ◌∙◌, ap,
  subst, All, ◌==◌, String_eq, if◌then◌else◌, Bool-cases, inl, inr, ◌⊎◌, ==_iff, arith,
}
use proxy_gateway_plus.Tx.{
  Target, Image, Files, Bytes, Entry, absent, symlink, regular, hardlinked, write, exists,
}
use proxy_gateway_plus.Tx.Effect.{Fate, World, ◌>>=◌, pure, durable}
use proxy_gateway_plus.Tx.Assemble.{unlink}
use proxy_gateway_plus.Tx.Commit.{
  Env, attempt, image_of, restore_from, restore_one, restore_all, verify_all,
}
use proxy_gateway_plus.Tx.Rules.{Keeps, Spec, Spec-bind, Spec-weaken, Keeps-bind, Keeps-pure}
use proxy_gateway_plus.Tx.Specs.{
  entry_of, Spec-pure, Spec-gets, Spec-if, Spec-catch, Spec-require, Spec-durable,
}
use proxy_gateway_plus.Tx.Prepare.{Keeps-read_target}
use proxy_gateway_plus.Tx.Journal.{Elsewhere, names_of, Imaged, Journaled}
use proxy_gateway_plus.Tx.Writes.{
  Covered, Covered-self, Journaled-fates, Journaled-write, write-same,
}

-- The file at the path of this target is as it was.
abbrev pub Restored : Files → Files → String × String → Type 0
Restored files now (name, path) = now path ≡ files path

-- Putting a file back disturbs none that is back.
write-Restored :
    (files now : Files) (path : String) (e : Entry) (n : String × String)
    → files path ≡ e
    → Restored files now n
    → Restored files (write path e now) n
write-Restored files now path e n at r = elim (Bool-cases (path == n.1)) [
  | inl same ↦
      ap (λ b. if b then e else now n.1) same ∙ sym at ∙ ap files ((==_iff path n.1).0 same)
  | inr other ↦ ap (λ b. if b then e else now n.1) other ∙ r
]

pub write-All-Restored :
    (files now : Files) (path : String) (e : Entry) (ns : List (String × String))
    → files path ≡ e
    → All (Restored files now) ns
    → All (Restored files (write path e now)) ns
write-All-Restored files now path e [] at _ = tt
write-All-Restored files now path e (n ∷ ns) at (r, rs) =
    (write-Restored files now path e n at r, write-All-Restored files now path e ns at rs)

exists-absent : (e : Entry) → exists e ≡ false → e ≡ absent
exists-absent absent h = refl
exists-absent symlink h = cc
exists-absent (regular d) h = cc
exists-absent (hardlinked d) h = cc

module _ (env : Env) (files : Files) (targets : List Target) (images : List (String × Image)) where
  -- The journal is there and these files are back.
  abbrev pub Undoing : List (String × String) → World → Type 0
  Undoing done w = Journaled env files targets images w × All (Restored files w.disk.files) done

  Spec-put_back :
      (done : List (String × String)) (t : Target) (e : Entry) (P : World → Type 0)
      → ((w : World) → P w → Undoing done w)
      → ((w : World) (rest : List Fate) → P w → P (record w { fates = rest }))
      → Covered targets t
      → files t.path ≡ e
      → Spec P
          (durable (λ k. record k { files = write t.path e k.files }))
          (λ _. Undoing ((t.name, t.path) ∷ done))
          (Undoing done)
  Spec-put_back done t e P from blind covered at =
      Spec-durable _ blind
        (λ w p. (
          Journaled-write env files targets images t e w covered (from w p).0,
          (
            write-same t.path e w.disk.files ∙ sym at,
            write-All-Restored files w.disk.files t.path e done at (from w p).1,
          ),
        ))
        from
        (λ w p. (
          Journaled-write env files targets images t e w covered (from w p).0,
          write-All-Restored files w.disk.files t.path e done at (from w p).1,
        ))

  Spec-restore_one :
      (done : List (String × String)) (t : Target)
      → Covered targets t
      → Imaged env files images (t.name, t.path)
      → Spec
          (Undoing done)
          (restore_one env images t)
          (λ _. Undoing ((t.name, t.path) ∷ done))
          (Undoing done)
  unfolding restore_one
  Spec-restore_one done t covered (c, at, found) =
      Spec-bind _ _ (Spec-gets {Q = Seen} _ (λ w h. (h, refl))) (λ there.
        subst
          (λ o.
            Spec (Seen there) (restore_from env there t.path o)
              (λ _. Undoing ((t.name, t.path) ∷ done)) (Undoing done))
          (sym found) (go there c at))
    where
      Seen : Bool → World → Type 0
      Seen there w = Undoing done w × (exists (w.disk.files t.path) ≡ there)

      blind :
          (there : Bool) (w : World) (rest : List Fate)
          → Seen there w
          → Seen there (record w { fates = rest })
      blind there w rest h = ((Journaled-fates env files targets images w rest h.0.0, h.0.1), h.1)

      removed :
          (there : Bool)
          → files t.path ≡ absent
          → Spec
              (Seen there)
              (unlink t.path)
              (λ _. Undoing ((t.name, t.path) ∷ done))
              (Undoing done)
      removed there at =
          unfold unlink in
          Spec-bind _ _ (Spec-gets {Q = λ _. Seen there} _ (λ w h. h)) (λ still.
            Spec-bind _ _ (Spec-require {Q = λ _. Seen there} _ _ (λ _ w h. h) (λ w h. h.0))
              (λ _. Spec-put_back done t absent (Seen there) (λ w h. h.0) (blind there) covered at))

      go :
          (there : Bool) (c : Option Bytes)
          → files t.path ≡ entry_of c
          → Spec
              (Seen there)
              (restore_from env there t.path (some (image_of env c)))
              (λ _. Undoing ((t.name, t.path) ∷ done))
              (Undoing done)
      go there (some d) at =
          unfold restore_from image_of in
          Spec-put_back done t (regular d) (Seen there) (λ w h. h.0) (blind there) covered at
      go there none at =
          unfold restore_from image_of in
          Spec-if there _ _ (λ _. removed there at)
            (λ gone.
              Spec-pure tt (λ w h.
                (h.0.0, (exists-absent (w.disk.files t.path) (h.1 ∙ gone) ∙ sym at, h.0.1))))

  added : Bool → Target → List (String × String) → List (String × String)
  added true t done = (t.name, t.path) ∷ done
  added false t done = done

  Spec-attempt_one :
      (done : List (String × String)) (t : Target)
      → Covered targets t
      → Imaged env files images (t.name, t.path)
      → Spec
          (Undoing done)
          (attempt (restore_one env images t))
          (λ ok. Undoing (added ok t done))
          (Undoing done)
  unfolding attempt added
  Spec-attempt_one done t covered imaged =
      Spec-catch _ _
        (Spec-bind _ _ (Spec-restore_one done t covered imaged) (λ _. Spec-pure true (λ w h. h)))
        (λ e. Spec-pure false (λ w h. h))

  -- A report of success means that every file is back.
  abbrev pub AllBack : List Target → Bool → World → Type 0
  AllBack ts ok w =
      Journaled env files targets images w
      × (ok ≡ true → All (Restored files w.disk.files) (names_of ts))

  AllBackFrom : List (String × String) → List Target → Bool → World → Type 0
  AllBackFrom done ts ok w =
      Undoing done w × (ok ≡ true → All (Restored files w.disk.files) (names_of ts))

  after_one :
      (done : List (String × String)) (t : Target) (ts : List Target) (here : Bool)
      → ((d : List (String × String))
          → Spec (Undoing d) (restore_all env images ts) (AllBackFrom d ts) (Undoing []))
      → Spec
          (Undoing (added here t done))
          (do later ← restore_all env images ts; pure (here && later))
          (AllBackFrom done (t ∷ ts))
          (Undoing [])
  unfolding added AllBackFrom
  after_one done t ts true rest =
      Spec-bind _ _ (rest ((t.name, t.path) ∷ done))
        (λ later. Spec-pure _ (λ w h. ((h.0.0, h.0.1.1), λ ok. (h.0.1.0, h.1 ok))))
  after_one done t ts false rest =
      Spec-bind _ _ (rest done) (λ later. Spec-pure _ (λ w h. (h.0, λ ok. cc)))

  Spec-restore_from :
      (done : List (String × String)) (ts : List Target)
      → All (Covered targets) ts
      → All (Imaged env files images) (names_of ts)
      → Spec (Undoing done) (restore_all env images ts) (AllBackFrom done ts) (Undoing [])
  unfolding restore_all AllBackFrom
  Spec-restore_from done [] _ _ = Spec-pure true (λ w h. (h, λ _. tt))
  Spec-restore_from done (t ∷ ts) (c, cs) (i, is) =
      Spec-bind _ _
        (Spec-weaken _ (Spec-attempt_one done t c i) (λ w h. h) (λ ok w h. h) (λ w h. (h.0, tt)))
        (λ here. after_one done t ts here (λ d. Spec-restore_from d ts cs is))

  -- Putting back all targets keeps the record, however far it gets.
  pub Spec-restore_all :
      All (Imaged env files images) (names_of targets)
      → Spec
          (Journaled env files targets images)
          (restore_all env images targets)
          (AllBack targets)
          (Journaled env files targets images)
  unfolding AllBackFrom
  Spec-restore_all imaged =
      Spec-weaken _ (Spec-restore_from [] targets (Covered-self targets) imaged) (λ w h. (h, tt))
        (λ ok w h. (h.0.0, h.1)) (λ w h. h.0)

module _ {I : World → Type 0} (env : Env) (images : List (String × Image)) where
  -- The comparison with the before-image only reads.
  pub Keeps-verify_all : (ts : List Target) → Keeps I (verify_all env images ts)
  unfolding verify_all
  Keeps-verify_all [] = Keeps-pure true
  Keeps-verify_all (t ∷ ts) =
      Keeps-bind _ _ (Keeps-read_target t.path)
        (λ cur. Keeps-bind _ _ (Keeps-verify_all ts) (λ later. Keeps-pure _))

-- Files that are back at the targets, and kept elsewhere, are back everywhere.
pub back_everywhere :
    (files now : Files) (p : String) (names : List (String × String))
    → All (Restored files now) names
    → Elsewhere p names ⊎ (now p ≡ files p)
back_everywhere files now p [] _ = inl tt
back_everywhere files now p (n ∷ ns) (r, rs) = elim (Bool-cases (n.1 == p)) [
  | inl same ↦ inr (subst (λ q. now q ≡ files q) ((==_iff n.1 p).0 same) r)
  | inr other ↦ elim (back_everywhere files now p ns rs) [
    | inl h ↦ inl ((λ e. ground (arith, ==_iff n.1 p, e)), h)
    | inr h ↦ inr h
  ]
]
