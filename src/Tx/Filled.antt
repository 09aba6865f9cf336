-- ===== src/Tx/Filled.antt =====
-- The before-image of `Tx._save_before` in deploy/bot/pdgtx.py, entry by entry.
use proxy_gateway_plus.Prelude.{
  String, Option, none, some, List, [], ◌∷◌, ◌≡◌, sym, ◌∙◌, ap, All, ◌==◌, String_eq, Bool-cases,
  inl, inr, if◌then◌else◌, ==_iff, ==_refl,
}
use proxy_gateway_plus.Tx.{Target, Image, Files, Bytes, assoc}
use proxy_gateway_plus.Tx.Effect.{World, pure}
use proxy_gateway_plus.Tx.Assemble.{side_file}
use proxy_gateway_plus.Tx.Commit.{Env, for_each, image_of, keep_one}
use proxy_gateway_plus.Tx.Rules.{Spec, Spec-bind, Spec-weaken}
use proxy_gateway_plus.Tx.Specs.{entry_of, Spec-pure, Spec-modify, Spec-durable, Spec-read_target}
use proxy_gateway_plus.Tx.Prepare.{Resolved}
use proxy_gateway_plus.Tx.Journal.{Imaged, names_of}

-- A name stands with the path that the whitelist gives it.
abbrev pub Named : Env → String × String → Type 0
Named env (name, path) = env.resolve name ≡ some path

pub names_of-Named :
    (env : Env) (ts : List Target) → All (Resolved env) ts → All (Named env) (names_of ts)
names_of-Named env [] h = tt
names_of-Named env (t ∷ ts) (h, hs) = (h, names_of-Named env ts hs)

some-injective : {a b : String} → some a ≡ some b → a ≡ b
some-injective {a} e = ap (λ o. elim o [ none ↦ a | some x ↦ x ]) e

-- The files are untouched, and these targets are to be changed.
abbrev pub Aimed : Env → Files → List Target → World → Type 0
Aimed env files targets w = (w.disk.files ≡ files) × (w.tx.targets ≡ targets)

module _ (env : Env) (files : Files) where
  -- A new entry does not disturb those of other names, and agrees with those of its own.
  Imaged-cons :
      (images : List (String × Image)) (t n : String × String) (c : Option Bytes)
      → Named env t
      → files t.1 ≡ entry_of c
      → Named env n
      → Imaged env files images n
      → Imaged env files ((t.0, image_of env c) ∷ images) n
  Imaged-cons images t n c ht hc hn (d, at, found) = elim (Bool-cases (t.0 == n.0)) [
    | inl same ↦ (
      c,
      ap files (some-injective (sym hn ∙ ap env.resolve (sym ((==_iff t.0 n.0).0 same)) ∙ ht)) ∙ hc,
      ap (λ b. if b then some (image_of env c) else assoc n.0 images) same,
    )
    | inr other ↦
        (d, at, ap (λ b. if b then some (image_of env c) else assoc n.0 images) other ∙ found)
  ]

  -- Some entries are there.
  pub record Filled (targets : List Target) (names : List (String × String)) (w : World)
      : Type 0 where
    pub aimed : Aimed env files targets w
    pub named : All (Named env) names
    pub entries : All (Imaged env files w.tx.images) names

  pub Filled-keep_one :
      (targets : List Target) (names : List (String × String)) (t : Target)
      → Resolved env t
      → Spec
          (Filled targets names)
          (keep_one env t)
          (λ _. Filled targets ((t.name, t.path) ∷ names))
          (Aimed env files targets)
  unfolding keep_one
  Filled-keep_one targets names t r =
      Spec-bind _ _
        (Spec-weaken _ (Spec-read_target t.path) (λ w h. h) (λ c w h. h) (λ w h. h.aimed))
        (λ cur. Spec-bind _ _ (copy cur) (λ _. Spec-modify _ (λ w (h, at). record {
          aimed = h.aimed;
          named = (r, h.named);
          entries = (
            (cur, ap (λ f. f t.path) (sym h.aimed.0) ∙ at, own_entry cur w.tx.images),
            more w.tx.images cur (ap (λ f. f t.path) (sym h.aimed.0) ∙ at) names h.named h.entries,
          );
        })))
    where
      Read : Option Bytes → World → Type 0
      Read cur w = Filled targets names w × (w.disk.files t.path ≡ entry_of cur)

      copy :
          (cur : Option Bytes)
          → Spec
              (Read cur)
              (elim cur [ none ↦ pure tt | some _ ↦ side_file ])
              (λ _. Read cur)
              (Aimed env files targets)
      copy none = Spec-pure tt (λ w h. h)
      copy (some d) =
          unfold side_file in
          Spec-durable _
            (λ w rest h.
              (record { aimed = h.0.aimed; named = h.0.named; entries = h.0.entries }, h.1))
            (λ w h. (record { aimed = h.0.aimed; named = h.0.named; entries = h.0.entries }, h.1))
            (λ w h. h.0.aimed) (λ w h. h.0.aimed)

      own_entry :
          (c : Option Bytes) (images : List (String × Image))
          → assoc t.name ((t.name, image_of env c) ∷ images) ≡ some (image_of env c)
      own_entry c images =
          ap (λ b. if b then some (image_of env c) else assoc t.name images) (==_refl t.name)

      more :
          (images : List (String × Image)) (c : Option Bytes)
          → files t.path ≡ entry_of c
          → (ns : List (String × String)) → All (Named env) ns
          → All (Imaged env files images) ns
          → All (Imaged env files ((t.name, image_of env c) ∷ images)) ns
      more images c at [] _ _ = tt
      more images c at (n ∷ ns) (k, ks) (i, is) =
          (Imaged-cons images (t.name, t.path) n c r at k i, more images c at ns ks is)

  pub Filled-for_each :
      (targets : List Target) (names : List (String × String)) (ts : List Target)
      → All (Resolved env) ts
      → Spec
          (Filled targets names)
          (for_each ts (keep_one env))
          (λ _ w. Filled targets names w × All (Imaged env files w.tx.images) (names_of ts))
          (Aimed env files targets)
  unfolding for_each
  Filled-for_each targets names [] _ = Spec-pure tt (λ w h. (h, tt))
  Filled-for_each targets names (t ∷ ts) (r, rs) =
      Spec-bind _ _ (Filled-keep_one targets names t r) (λ _.
        Spec-weaken _ (Filled-for_each targets ((t.name, t.path) ∷ names) ts rs) (λ w h. h)
          (λ _ w (h, more). (
            record { aimed = h.aimed; named = h.named.1; entries = h.entries.1 },
            (h.entries.0, more),
          ))
          (λ w h. h))
