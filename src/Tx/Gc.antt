-- ===== src/Tx/Gc.antt =====
-- `_gc` of deploy/bot/pdgtx.py: which transaction directories are removed. They are listed from the
-- newest; a directory whose record cannot be read has no state.
use proxy_gateway_plus.Prelude.{
  ℕ, zero, suc, ◌-◌, ◌≤◌, ◌<◌, ltb, String, Bool, false, not, Option, none, some, List, [], ◌∷◌,
  if◌then◌else◌, ◌≡◌, refl, arith, ap, take, ◌∙◌, sym,
}
use proxy_gateway_plus.Tx.{TxState, gc_terminal}

unfoldable pub is_terminal : String × Option TxState → Bool
is_terminal (id, none) = false
is_terminal (id, some s) = gc_terminal s

-- `kept` counts the finished directories met so far.
unfoldable pub gc_from : ℕ → ℕ → List (String × Option TxState) → List (String × Option TxState)
gc_from keep kept [] = []
gc_from keep kept (d ∷ rest) =
    let counted = gc_from keep (suc kept) rest in
    let passed = gc_from keep kept rest in
    if not (is_terminal d) then d ∷ passed else if ltb keep (suc kept) then counted else d ∷ counted

unfoldable pub gc : ℕ → List (String × Option TxState) → List (String × Option TxState)
gc keep = gc_from keep 0

-- The elements that pass a test, in order.
abbrev pub only {ℓ} : {A : Type ℓ} → (A → Bool) → List A → List A
only p [] = []
only p (x ∷ xs) = if p x then x ∷ only p xs else only p xs

abbrev pub is_open : String × Option TxState → Bool
is_open d = not (is_terminal d)

-- What is not finished stays.
pub gc_from-open :
    (keep kept : ℕ) (ds : List (String × Option TxState))
    → only is_open (gc_from keep kept ds) ≡ only is_open ds
unfolding gc_from
gc_from-open keep kept [] = refl
gc_from-open keep kept (d ∷ ds) =
    ground (arith, gc_from-open keep kept ds, gc_from-open keep (suc kept) ds)

pub take_nil {ℓ} : {A : Type ℓ} (n : ℕ) → take {A = A} n [] ≡ []
take_nil zero = refl
take_nil (suc n) = refl

pub take_step {ℓ} :
    {A : Type ℓ} (keep kept : ℕ) (x : A) (xs : List A)
    → kept < keep
    → take (keep - kept) (x ∷ xs) ≡ x ∷ take (keep - suc kept) xs
take_step {A} keep kept x xs h = ap (λ n. take n (x ∷ xs)) (more keep kept h)
  where
    more : (a b : ℕ) → b < a → a - b ≡ suc (a - suc b)
    more a b k = omega (arith, k)

pub take_full {ℓ} :
    {A : Type ℓ} (keep kept : ℕ) (xs : List A) → keep ≤ kept → take (keep - kept) xs ≡ []
take_full keep kept xs h = ap (λ n. take n xs) (none_left keep kept h)
  where
    none_left : (a b : ℕ) → a ≤ b → a - b ≡ 0
    none_left a b k = omega (arith, k)

gc_from-terminal :
    (keep kept : ℕ) (ds : List (String × Option TxState))
    → only is_terminal (gc_from keep kept ds) ≡ take (keep - kept) (only is_terminal ds)
unfolding gc_from
gc_from-terminal keep kept [] = sym (take_nil (keep - kept))
gc_from-terminal keep kept (d ∷ ds) = ground (
  arith,
  gc_from-terminal keep kept ds,
  gc_from-terminal keep (suc kept) ds,
  take_step keep kept d (only is_terminal ds),
  take_full keep kept (d ∷ only is_terminal ds),
  take_full keep (suc kept) (only is_terminal ds),
)

-- Every unfinished transaction stays, and of the finished ones the newest `keep` stay, in order.
pub gc_keeps :
    (keep : ℕ) (ds : List (String × Option TxState))
    → (only is_open (gc keep ds) ≡ only is_open ds)
      × (only is_terminal (gc keep ds) ≡ take keep (only is_terminal ds))
unfolding gc
gc_keeps keep ds = (
  gc_from-open keep 0 ds,
  gc_from-terminal keep 0 ds ∙ ap (λ n. take n (only is_terminal ds)) (whole keep),
)
  where
    whole : (n : ℕ) → n - 0 ≡ n
    whole n = omega arith
