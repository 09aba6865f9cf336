-- ===== src/Tx/Quiet.antt =====
-- `Tx.commit` of deploy/bot/pdgtx.py against an invariant that its effects keep, as far as they write no
-- production file.
use proxy_gateway_plus.Prelude.{
  ℕ, String, Bool, true, false, ◌&&◌, Option, none, some, List, map, ◌≡◌, refl, subst,
}
use proxy_gateway_plus.Tx.{TxState, validated, aborted, Target, Image, Bytes, Digest}
use proxy_gateway_plus.Tx.Effect.{
  Fate, World, Exn, ◌>>=◌, gets, durable, busy, refused, tx_error, os_error, apply_failed, pure,
  raise,
}
use proxy_gateway_plus.Tx.Gc.{gc_from}
use proxy_gateway_plus.Tx.Assemble.{
  meta_of, save_meta, set_state, side_file, put_target, stage_path, stage_at, stage_derived,
}
use proxy_gateway_plus.Tx.Commit.{
  Env, Derived, produced, nothing, refuses, fails, for_each, note_leftovers, cleanup, collect_old,
  wind_up, abort, give_up, derive_one, check_guard, check_target, check_watch, validated_as,
  validate_one, prepare, keep_one, save_before, record_before,
}
use proxy_gateway_plus.Tx.Rules.{
  Keeps, Keeps-pure, Keeps-raise, Keeps-gets, Keeps-require, Keeps-if, Keeps-bind, Keeps-catch,
  Keeps-modify, Keeps-durable, Keeps-for_each, Keeps-attempt,
}
use proxy_gateway_plus.Tx.Prepare.{Resolved, Keeps-read_target}

-- The effects that write no production file keep the invariant, where the states that are entered are
-- those of a set.
pub record Quiet (env : Env) (Enters : TxState → Type 0) (I : World → Type 0) : Type 0 where
  pub blind : (w : World) (rest : List Fate) → I w → I (record w { fates = rest })
  pub progress :
      (w : World) (images : List (String × Image)) (intended : List (String × Option Digest))
      → I w
      → I (record w { tx = record w.tx { images = images; intended = intended } })
  pub entered :
      (w : World) (s : TxState) → Enters s → I w → I (record w { tx = record w.tx { state = s } })
  pub staged :
      (w : World) (t : Target)
      → Resolved env t
      → I w
      → I (record w { tx = record w.tx { targets = put_target t w.tx.targets } })
  pub saved :
      (w : World) → I w → I (record w { disk = record w.disk { saved = some (meta_of w.tx) } })
  pub collected :
      (w : World) (kept : ℕ)
      → I w
      → I (record w { disk = record w.disk { others = gc_from env.keep kept w.disk.others } })
  pub index :
      (w : World) (b : Option (List (String × Image)))
      → I w
      → I (record w { disk = record w.disk { before = b } })

module _ (env : Env) (Enters : TxState → Type 0) (I : World → Type 0) (c : Quiet env Enters I) where
  pub Keeps-save_meta : Keeps I save_meta
  unfolding save_meta ◌>>=◌ gets
  Keeps-save_meta = record {
    at = λ w h.
        ((Keeps-durable {I = λ v. I v × (v.tx ≡ w.tx)} _ (λ v rest k. (c.blind v rest k.0, k.1))
            (λ v k. (
              subst (λ tx. I (record v { disk = record v.disk { saved = some (meta_of tx) } })) k.1
                  (c.saved v k.0),
              k.1,
            ))).at
          w (h, refl)).0;
  }

  pub Keeps-side_file : Keeps I side_file
  unfolding side_file
  Keeps-side_file = Keeps-durable _ c.blind (λ w h. h)

  pub Keeps-set_state : (s : TxState) → Enters s → Keeps I (set_state s)
  unfolding set_state
  Keeps-set_state s enters = Keeps-bind _ _ (Keeps-gets _) (λ state.
      Keeps-bind _ _ (Keeps-require _ _) (λ _.
        Keeps-bind _ _ (Keeps-modify _ (λ w h. c.entered w s enters h)) (λ _. Keeps-save_meta)))

  pub Keeps-drop_before :
      (b : Option (List (String × Image))) → Keeps I (durable (λ d. record d { before = b }))
  Keeps-drop_before b = Keeps-durable _ c.blind (λ w h. c.index w b h)

  pub Keeps-cleanup : Keeps I cleanup
  unfolding cleanup
  Keeps-cleanup = Keeps-bind _ _ (Keeps-attempt _ Keeps-side_file) (λ candidates.
      Keeps-bind _ _ (Keeps-attempt _ (Keeps-drop_before none))
        (λ before. noted (candidates && before)))
    where
      noted : (removed : Bool) → Keeps I (note_leftovers removed)
      noted true = unfold note_leftovers in Keeps-pure tt
      noted false =
          unfold note_leftovers in
          Keeps-bind _ _ (Keeps-attempt _ Keeps-save_meta) (λ _. Keeps-pure tt)

  pub Keeps-collect_old : (is_finished : Bool) → Keeps I (collect_old env is_finished)
  unfolding collect_old
  Keeps-collect_old is_finished =
      Keeps-bind _ _ (Keeps-attempt _ (Keeps-durable _ c.blind (λ w h. c.collected w _ h)))
        (λ _. Keeps-pure tt)

  pub Keeps-wind_up : Keeps I (wind_up env)
  unfolding wind_up
  Keeps-wind_up = Keeps-bind _ _ Keeps-cleanup (λ _. Keeps-collect_old true)

  -- Up to VALIDATED
  pub Keeps-stage_path :
      (o : Option String) (name : String) (content : Option Bytes) (expect : Option (Option Digest))
      → env.resolve name ≡ o
      → Keeps I (stage_path env.sha env.resolve o name content expect)
  unfolding stage_path
  Keeps-stage_path none name content expect e = Keeps-raise tx_error
  Keeps-stage_path (some path) name content expect e =
      Keeps-bind _ _ (Keeps-read_target path)
        (λ cur. Keeps-bind _ _ (candidate content) (λ _. Keeps-modify _ (λ w h. c.staged w _ e h)))
    where
      candidate : (b : Option Bytes) → Keeps I (elim b [ none ↦ pure tt | some _ ↦ side_file ])
      candidate none = Keeps-pure tt
      candidate (some d) = Keeps-side_file

  pub Keeps-derive_one :
      (d : String × (List (String × Option Bytes) → Derived)) → Keeps I (derive_one env d)
  unfolding derive_one stage_derived stage_at
  Keeps-derive_one (target, fn) =
      Keeps-bind _ _ (Keeps-gets _)
        (λ targets. go (fn (map (λ (t : Target). (t.name, t.content)) targets)))
    where
      go :
          (r : Derived)
          → Keeps I (elim r [
            | produced d ↦ stage_derived env.sha env.resolve target d
            | _ ↦ raise refused
          ])
      go (produced d) = Keeps-stage_path (env.resolve target) target (some d) none refl
      go nothing = Keeps-raise refused
      go refuses = Keeps-raise refused
      go fails = Keeps-raise refused

  pub Keeps-validate_one : (t : Target) → Keeps I (validate_one env t)
  unfolding validate_one validated_as
  Keeps-validate_one t = go t.content
    where
      go :
          (b : Option Bytes)
          → Keeps I
              (elim b [ none ↦ pure tt | some _ ↦ for_each (env.verdicts t) (validated_as env) ])
      go none = Keeps-pure tt
      go (some d) =
          Keeps-for_each _ _ (λ ok. Keeps-bind _ _ Keeps-save_meta (λ _. Keeps-require _ _))

  pub Keeps-prepare : Enters validated → Keeps I (prepare env)
  unfolding prepare check_target check_watch check_guard
  Keeps-prepare enters = Keeps-bind _ _ (Keeps-gets _) (λ pending.
      Keeps-bind _ _ (Keeps-require _ _) (λ _.
        Keeps-bind _ _ (Keeps-for_each _ _ Keeps-derive_one) (λ _.
          Keeps-bind _ _ (Keeps-gets _) (λ tx. Keeps-bind _ _ (Keeps-require _ _) (λ _.
            Keeps-bind _ _ (Keeps-require _ _) (λ _.
              Keeps-bind _ _ (Keeps-for_each _ _ (λ g. Keeps-require _ _)) (λ _.
                Keeps-bind _ _ (Keeps-require _ _) (λ _.
                  Keeps-bind _ _
                    (Keeps-for_each _ _
                      (λ t. Keeps-bind _ _ (Keeps-read_target t.path) (λ cur. Keeps-require _ _)))
                    (λ _.
                      Keeps-bind _ _
                        (Keeps-for_each _ _ (λ t.
                          Keeps-bind _ _ (Keeps-read_target t.path) (λ cur. Keeps-require _ _)))
                        (λ _. Keeps-bind _ _ (Keeps-for_each _ _ Keeps-validate_one) (λ _.
                          Keeps-bind _ _ Keeps-side_file
                            (λ _. Keeps-set_state validated enters))))))))))))

  -- From the before-image on
  pub Keeps-keep_one : (t : Target) → Keeps I (keep_one env t)
  unfolding keep_one
  Keeps-keep_one t =
      Keeps-bind _ _ (Keeps-read_target t.path)
        (λ cur. Keeps-bind _ _ (copy cur) (λ _. Keeps-modify _ (λ w h. c.progress w _ _ h)))
    where
      copy : (b : Option Bytes) → Keeps I (elim b [ none ↦ pure tt | some _ ↦ side_file ])
      copy none = Keeps-pure tt
      copy (some d) = Keeps-side_file

  pub Keeps-record_before : Keeps I (record_before env)
  unfolding record_before save_before
  Keeps-record_before =
      Keeps-catch _ _
        (Keeps-bind _ _ (Keeps-modify _ (λ w h. c.progress w _ _ h)) (λ _.
          Keeps-bind _ _ (Keeps-gets _) (λ targets.
            Keeps-bind _ _ (Keeps-for_each targets _ Keeps-keep_one) (λ _.
              Keeps-bind _ _ (Keeps-require _ _) (λ _. Keeps-bind _ _ (Keeps-gets _) (λ images.
                Keeps-bind _ _ (Keeps-drop_before (some images)) (λ _.
                  Keeps-bind _ _ (Keeps-modify _ (λ w h. c.progress w _ _ h))
                    (λ _. Keeps-save_meta))))))))
        (λ _. Keeps-raise refused)

  pub Keeps-abort : Enters aborted → Keeps I abort
  unfolding abort
  Keeps-abort enters = Keeps-bind _ _ (Keeps-gets _) (λ state.
      Keeps-if _ _ _
        (Keeps-bind _ _ (Keeps-modify _ (λ w h. c.entered w aborted enters h))
          (λ _. Keeps-bind _ _ Keeps-save_meta (λ _. Keeps-cleanup)))
        (Keeps-pure tt))

  pub Keeps-give_up : Enters aborted → (e : Exn) → Keeps I (give_up e)
  unfolding give_up
  Keeps-give_up enters refused = Keeps-bind _ _ (Keeps-abort enters) (λ _. Keeps-raise refused)
  Keeps-give_up enters busy = Keeps-bind _ _ (Keeps-abort enters) (λ _. Keeps-raise busy)
  Keeps-give_up enters tx_error = Keeps-raise tx_error
  Keeps-give_up enters os_error = Keeps-raise os_error
  Keeps-give_up enters apply_failed = Keeps-raise apply_failed
