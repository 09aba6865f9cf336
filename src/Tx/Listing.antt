-- ===== src/Tx/Listing.antt =====
-- `list_tx`, `pending_recovery` and `stale_unstarted` of deploy/bot/pdgtx.py: what is reported of the
-- transaction directories, and what `_gc` leaves of that. The directories are listed from the newest,
-- each under its transaction's name; one whose record cannot be read has no state.
use proxy_gateway_plus.Prelude.{
  ℕ, suc, ◌-◌, ltb, leb, String, Bool, true, false, not, ◌&&◌, Option, none, some, List, [], ◌∷◌,
  if◌then◌else◌, ◌==◌, String_eq, Option_eq, ◌≡◌, refl, ap, all, inl, inr, Bool-cases,
}
use proxy_gateway_plus.Tx.{TxState, gc_terminal, needs_recovery, is_unstarted}
use proxy_gateway_plus.Tx.Gc.{gc_from, is_terminal}

abbrev pub Dir : Type 0
Dir = String × Option TxState

-- The limit is looked at after each directory.
abbrev pub is_full : Option ℕ → ℕ → Bool
is_full none n = false
is_full (some limit) n = leb limit n

unfoldable pub list_from : Option ℕ → ℕ → List Dir → List (String × TxState)
list_from limit n [] = []
list_from limit n ((id, none) ∷ ds) =
    let more = list_from limit n ds in if is_full limit n then [] else more
list_from limit n ((id, some s) ∷ ds) =
    let more = list_from limit (suc n) ds in (id, s) ∷ (if is_full limit (suc n) then [] else more)

unfoldable pub list_tx : Option ℕ → List Dir → List (String × TxState)
list_tx limit = list_from limit 0

abbrev pub select {ℓ} : {A : Type ℓ} → (A → Bool) → List A → List A
select p [] = []
select p (x ∷ xs) = let rest = select p xs in if p x then x ∷ rest else rest

-- Transactions that need recovery, however many there are.
unfoldable pub pending_recovery : Option String → List Dir → List (String × TxState)
pending_recovery exclude ds =
    select (λ m. needs_recovery m.1 && not (some m.0 == exclude)) (list_tx none ds)

-- `now` and `started` are the time and the `started_at` of a record, in whole seconds.
unfoldable pub stale_unstarted : ℕ → (String → ℕ) → ℕ → List Dir → List (String × TxState)
stale_unstarted now started older_than ds =
    select (λ m. is_unstarted m.1 && ltb older_than (now - started m.0)) (list_tx none ds)

-- `TERMINAL`, which counts a failed rollback.
abbrev pub is_ended : TxState → Bool
is_ended TxState.rollback_failed = true
is_ended s = gc_terminal s

-- `is_dir` says which directories of materials a transaction still has.
unfoldable pub leftovers_of :
    (String → String → Bool) → List (String × TxState) → List (String × TxState × List String)
leftovers_of is_dir [] = []
leftovers_of is_dir ((id, s) ∷ ms) =
    let rest = leftovers_of is_dir ms in
    let left = select (is_dir id) ("candidate" ∷ "before" ∷ []) in
    if is_ended s && not (all (λ _. false) left) then (id, s, left) ∷ rest else rest

unfoldable pub leftover_materials :
    (String → String → Bool) → List Dir → List (String × TxState × List String)
leftover_materials is_dir ds = leftovers_of is_dir (list_tx none ds)

-- Where only unfinished transactions are selected, nothing that `_gc` removes was.
select-gc :
    (p : String × TxState → Bool)
    → ((id : String) (s : TxState) → gc_terminal s ≡ true → p (id, s) ≡ false)
    → (keep kept n k : ℕ) (ds : List Dir)
    → select p (list_from none n (gc_from keep kept ds)) ≡ select p (list_from none k ds)
unfolding gc_from list_from is_terminal
select-gc p unfinished keep kept n k [] = refl
select-gc p unfinished keep kept n k ((id, none) ∷ ds) = select-gc p unfinished keep kept n k ds
select-gc p unfinished keep kept n k ((id, some s) ∷ ds) = elim (Bool-cases (gc_terminal s)) [
  | inl t ↦ elim (Bool-cases (ltb keep (suc kept))) [
    | inl over ↦
        rw (t, over, unfinished id s t) (select-gc p unfinished keep (suc kept) n (suc k) ds)
    | inr room ↦
        rw (t, room, unfinished id s t) (select-gc p unfinished keep (suc kept) (suc n) (suc k) ds)
  ]
  | inr f ↦ rw f (
      ap (λ r. if p (id, s) then (id, s) ∷ r else r)
        (select-gc p unfinished keep kept (suc n) (suc k) ds))
]

-- No finished transaction needs recovery.
unpending : (s : TxState) (b : Bool) → gc_terminal s ≡ true → (needs_recovery s && b) ≡ false
unpending TxState.committed b t = refl
unpending TxState.rolled_back b t = refl
unpending TxState.aborted b t = refl
unpending TxState.preparing b t = refl
unpending TxState.validated b t = refl
unpending TxState.applying b t = cc
unpending TxState.observing b t = cc
unpending TxState.rolling_back b t = cc
unpending TxState.rollback_failed b t = cc

-- However many finished transactions have been counted before, none of these is pending.
pub pending_recovery-gc_from :
    (keep kept : ℕ) (exclude : Option String) (ds : List Dir)
    → pending_recovery exclude (gc_from keep kept ds) ≡ pending_recovery exclude ds
unfolding pending_recovery list_tx
pending_recovery-gc_from keep kept exclude ds =
    select-gc _ (λ id s t. unpending s (not (some id == exclude)) t) keep kept 0 0 ds

-- No finished transaction is unstarted.
started_one : (s : TxState) (b : Bool) → gc_terminal s ≡ true → (is_unstarted s && b) ≡ false
started_one TxState.committed b t = refl
started_one TxState.rolled_back b t = refl
started_one TxState.aborted b t = refl
started_one TxState.preparing b t = cc
started_one TxState.validated b t = cc
started_one TxState.applying b t = refl
started_one TxState.observing b t = refl
started_one TxState.rolling_back b t = refl
started_one TxState.rollback_failed b t = refl

pub stale_unstarted-gc_from :
    (keep kept now : ℕ) (started : String → ℕ) (older_than : ℕ) (ds : List Dir)
    → stale_unstarted now started older_than (gc_from keep kept ds)
      ≡ stale_unstarted now started older_than ds
unfolding stale_unstarted list_tx
stale_unstarted-gc_from keep kept now started older_than ds =
    select-gc _ (λ id s t. started_one s (ltb older_than (now - started id)) t) keep kept 0 0 ds
