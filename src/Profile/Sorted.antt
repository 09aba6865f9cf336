-- ===== src/Profile/Sorted.antt =====
-- `sorted(set(ports))` of `parse_port_list` (deploy/bot/sb2mihomo.py).
use proxy_gateway_plus.Prelude.{
  ℕ, ◌<◌, Bool, true, ◌||◌, List, [], ◌∷◌, ◌==◌, ==_iff, ℕ_eq, ltb, all, All, contains, ◌≡◌, refl,
  arith, if-split,
}
use proxy_gateway_plus.Profile.Numbers.{insert_port, sorted_set}

abbrev pub Ascending : List ℕ → Type 0
Ascending [] = Unit
Ascending (n ∷ ns) = All (λ m. n < m) ns × Ascending ns

All-trans : (n m : ℕ) (ns : List ℕ) → n < m → All (λ k. m < k) ns → All (λ k. n < k) ns
All-trans n m [] l h = tt
All-trans n m (k ∷ ns) l (h, hs) = (omega arith, All-trans n m ns l hs)

All-insert :
    (k n : ℕ) (ns : List ℕ) → k < n → All (λ m. k < m) ns → All (λ m. k < m) (insert_port n ns)
All-insert k n [] l h = (l, tt)
All-insert k n (m ∷ ms) l (h, hs) =
    if-split (All (λ j. k < j)) (ltb n m) _ _ (λ _. (l, (h, hs)))
      (λ _.
        if-split (All (λ j. k < j)) (n == m) _ _ (λ _. (h, hs)) (λ _. (h, All-insert k n ms l hs)))

Ascending-insert : (n : ℕ) (ns : List ℕ) → Ascending ns → Ascending (insert_port n ns)
Ascending-insert n [] a = (tt, tt)
Ascending-insert n (m ∷ ms) (h, a) =
    if-split Ascending (ltb n m) _ _
      (λ l. ((ground arith, All-trans n m ms (ground arith) h), (h, a)))
      (λ l.
        if-split Ascending (n == m) _ _ (λ _. (h, a))
          (λ d. (All-insert m n ms (ground (arith, ==_iff n m)) h, Ascending-insert n ms a)))

pub Ascending-sorted_set : (ns : List ℕ) → Ascending (sorted_set ns)
Ascending-sorted_set [] = tt
Ascending-sorted_set (n ∷ ns) = Ascending-insert n (sorted_set ns) (Ascending-sorted_set ns)

all-insert :
    (p : ℕ → Bool) (n : ℕ) (ns : List ℕ)
    → p n ≡ true
    → all p ns ≡ true
    → all p (insert_port n ns) ≡ true
all-insert p n [] e h = ground arith
all-insert p n (m ∷ ms) e h = ground (arith, all-insert p n ms e)

-- What holds of all ports holds of all that are sorted.
pub all-sorted_set : (p : ℕ → Bool) (ns : List ℕ) → all p ns ≡ true → all p (sorted_set ns) ≡ true
all-sorted_set p [] h = refl
all-sorted_set p (n ∷ ns) h =
    all-insert p n (sorted_set ns) (ground arith) (all-sorted_set p ns (ground arith))

contains-insert :
    (k n : ℕ) (ns : List ℕ) → contains k (insert_port n ns) ≡ ((n == k) || contains k ns)
unfolding contains
contains-insert k n [] = refl
contains-insert k n (m ∷ ms) =
    ground (arith, ==_iff n m, ==_iff n k, ==_iff m k, contains-insert k n ms)

-- Sorting keeps which ports there are.
pub contains-sorted_set : (k : ℕ) (ns : List ℕ) → contains k (sorted_set ns) ≡ contains k ns
unfolding contains
contains-sorted_set k [] = refl
contains-sorted_set k (n ∷ ns) =
    ground (arith, contains-insert k n (sorted_set ns), contains-sorted_set k ns)
