-- ===== src/Tx/Views.antt =====
-- Runs of deploy/bot/pdgtx.py that write no production file.
use proxy_gateway_plus.Prelude.{Bool, true, false, ◌&&◌}
use proxy_gateway_plus.Tx.{TxState, Files}
use proxy_gateway_plus.Tx.Effect.{Tx, World}
use proxy_gateway_plus.Tx.Assemble.{save_meta, set_state, side_file}
use proxy_gateway_plus.Tx.Commit.{Env, note_leftovers, cleanup, collect_old, wind_up}
use proxy_gateway_plus.Tx.Recover.{discard}
use proxy_gateway_plus.Tx.Rules.{
  Keeps, Keeps-pure, Keeps-gets, Keeps-require, Keeps-modify, Keeps-durable, Keeps-bind,
  Keeps-attempt,
}

-- Runs that change neither the transaction nor a production file.
module _ (J : Tx → Files → Type 0) where
  abbrev pub View : World → Type 0
  View w = J w.tx w.disk.files

  pub View-save_meta : Keeps View save_meta
  unfolding save_meta
  View-save_meta = Keeps-bind _ _ (Keeps-gets _) (λ tx. Keeps-durable _ (λ w rest h. h) (λ w h. h))

  pub View-side_file : Keeps View side_file
  unfolding side_file
  View-side_file = Keeps-durable _ (λ w rest h. h) (λ w h. h)

  pub View-discard : Keeps View discard
  unfolding discard side_file
  View-discard = Keeps-bind _ _ (Keeps-attempt _ View-side_file) (λ _.
      Keeps-bind _ _ (Keeps-attempt _ (Keeps-durable _ (λ w rest h. h) (λ w h. h)))
        (λ _. Keeps-pure tt))

  View-note_leftovers : (removed : Bool) → Keeps View (note_leftovers removed)
  unfolding note_leftovers
  View-note_leftovers true = Keeps-pure tt
  View-note_leftovers false = Keeps-bind _ _ (Keeps-attempt _ View-save_meta) (λ _. Keeps-pure tt)

  pub View-cleanup : Keeps View cleanup
  unfolding cleanup side_file
  View-cleanup =
      Keeps-bind _ _ (Keeps-attempt _ (Keeps-durable _ (λ w rest h. h) (λ w h. h))) (λ candidates.
        Keeps-bind _ _ (Keeps-attempt _ (Keeps-durable _ (λ w rest h. h) (λ w h. h)))
          (λ before. View-note_leftovers (candidates && before)))

  pub View-collect_old : (env : Env) (is_finished : Bool) → Keeps View (collect_old env is_finished)
  unfolding collect_old
  View-collect_old env is_finished =
      Keeps-bind _ _ (Keeps-attempt _ (Keeps-durable _ (λ w rest h. h) (λ w h. h)))
        (λ _. Keeps-pure tt)

  pub View-wind_up : (env : Env) → Keeps View (wind_up env)
  unfolding wind_up
  View-wind_up env = Keeps-bind _ _ View-cleanup (λ _. View-collect_old env true)

  pub View-set_state :
      (s : TxState)
      → ((w : World) → View w → View (record w { tx = record w.tx { state = s } }))
      → Keeps View (set_state s)
  unfolding set_state
  View-set_state s h = Keeps-bind _ _ (Keeps-gets _) (λ state.
      Keeps-bind _ _ (Keeps-require _ _)
        (λ _. Keeps-bind _ _ (Keeps-modify _ h) (λ _. View-save_meta)))
