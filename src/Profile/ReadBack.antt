-- ===== src/Profile/ReadBack.antt =====
-- `parse_port_list` (deploy/bot/sb2mihomo.py) on the lists of ports that deploy/bot/pdgprofile.py writes.
use mathlib.Core.List.{append_assoc, append-nil}
use mathlib.Core.Option.{some-injective}
use proxy_gateway_plus.Prelude.{
  ℕ, zero, suc, ◌+◌, ◌-◌, ◌*◌, ◌/◌, ◌%◌, ◌^◌, ◌<◌, Bool, true, false, some, List, [], ◌∷◌, ◌++◌,
  ℕ_eq, ltb, all, All, All-append, ok, ◌≡◌, refl, sym, ap, ◌∙◌, inl, inr, arith, Bool-cases,
  if-split,
}
use proxy_gateway_plus.Prelude.Texts.{Text, is_space, rstrip, strip_text}
use proxy_gateway_plus.Profile.Numbers.{
  is_digit, decimal_from, in_range, ports_after, ports_between, ports_text, insert_port, sorted_set,
  has_ports, text, checked_ports, parse_port_list, digits, decimal_text, ports_line,
}
use proxy_gateway_plus.Profile.Sorted.{Ascending}

-- A text with no space is stripped to itself.
rstrip-Solid : (t : Text) → All (λ c. is_space c ≡ false) t → rstrip t ≡ t
rstrip-Solid [] h = refl
rstrip-Solid (c ∷ []) (p, h) = rw p refl
rstrip-Solid (c ∷ d ∷ cs) (p, h) = rw (rstrip-Solid (d ∷ cs) h) refl

pub strip_text-Solid : (t : Text) → All (λ c. is_space c ≡ false) t → strip_text t ≡ t
strip_text-Solid [] h = refl
strip_text-Solid (c ∷ cs) (p, h) = rw p (rstrip-Solid (c ∷ cs) (p, h))

-- A text that begins with a digit.
abbrev IsNumber : Text → Type 0
IsNumber [] = true ≡ false
IsNumber (c ∷ cs) = is_digit c ≡ true

IsNumber-append : (xs ys : Text) → IsNumber xs → IsNumber (xs ++ ys)
IsNumber-append [] ys h = cc
IsNumber-append (c ∷ cs) ys h = h

IsNumber-digits : (fuel n : ℕ) → IsNumber (digits (suc fuel) n)
unfolding digits
IsNumber-digits zero n = if-split IsNumber (ltb n 10) _ _ (λ l. ground arith) (λ l. ground arith)
IsNumber-digits (suc fuel) n =
    if-split IsNumber (ltb n 10) _ _ (λ l. ground arith)
      (λ l. IsNumber-append (digits (suc fuel) (n / 10)) _ (IsNumber-digits fuel (n / 10)))

pub digits-Solid : (fuel n : ℕ) → All (λ c. is_space c ≡ false) (digits fuel n)
unfolding digits
digits-Solid zero n = tt
digits-Solid (suc fuel) n =
    if-split (All (λ c. is_space c ≡ false)) (ltb n 10) _ _ (λ l. (ground arith, tt))
      (λ l.
        All-append (λ c. is_space c ≡ false) (digits fuel (n / 10)) _ (digits-Solid fuel (n / 10))
          (ground arith, tt))

-- The digits of a number are its own.
decimal_from-append :
    (a m : ℕ) (xs ys : Text)
    → decimal_from a xs ≡ some m
    → decimal_from a (xs ++ ys) ≡ decimal_from m ys
decimal_from-append a m [] ys h = ap (λ k. decimal_from k ys) (some-injective a m h)
decimal_from-append a m (c ∷ cs) ys h = elim (Bool-cases (is_digit c)) [
  | inl t ↦ rw t (decimal_from-append (a * 10 + (c - 48)) m cs ys (ground (arith, h, t)))
  | inr f ↦ ground (arith, h, f)
]

pub decimal_from-digits : (fuel n : ℕ) → n < 10 ^ fuel → decimal_from 0 (digits fuel n) ≡ some n
unfolding digits
decimal_from-digits zero n h = ap some (omega (arith, h))
decimal_from-digits (suc fuel) n h =
    if-split (λ t. decimal_from 0 t ≡ some n) (ltb n 10) _ _ (λ l. ground arith)
      (λ l.
        decimal_from-append 0 (n / 10) (digits fuel (n / 10)) ((48 + n % 10) ∷ [])
          (decimal_from-digits fuel (n / 10) (omega (arith, h)))
        ∙ ground arith)

ports_after-digits :
    (a m : ℕ) (ds rest : Text)
    → decimal_from a ds ≡ some m
    → ports_after a (ds ++ rest) ≡ ports_after m rest
unfolding ports_after
ports_after-digits a m [] rest h = ap (λ k. ports_after k rest) (some-injective a m h)
ports_after-digits a m (c ∷ cs) rest h = elim (Bool-cases (is_digit c)) [
  | inl t ↦ rw t (ports_after-digits (a * 10 + (c - 48)) m cs rest (ground (arith, h, t)))
  | inr f ↦ ground (arith, h, f)
]

-- What begins with a digit is read alike after a separator and at the front.
ports_between-number :
    (comma : Bool) (t : Text) → IsNumber t → ports_between comma t ≡ ports_after 0 t
unfolding ports_between ports_after
ports_between-number comma [] h = cc
ports_between-number comma (c ∷ cs) h = rw h (ap (λ k. ports_after k cs) (omega arith))

ports_text-number : (t : Text) → IsNumber t → ports_text t ≡ ports_after 0 t
unfolding ports_after
ports_text-number [] h = cc
ports_text-number (c ∷ cs) h = rw h (ap (λ k. ports_after k cs) (omega arith))

IsNumber-line : (n : ℕ) (ns : List ℕ) → IsNumber (ports_line (n ∷ ns))
IsNumber-line n [] = IsNumber-digits 9 n
IsNumber-line n (m ∷ ns) =
    IsNumber-append (decimal_text n ++ 44 ∷ []) (ports_line (m ∷ ns))
      (IsNumber-append (decimal_text n) (44 ∷ []) (IsNumber-digits 9 n))

line-Solid : (ns : List ℕ) → All (λ c. is_space c ≡ false) (ports_line ns)
line-Solid [] = tt
line-Solid (n ∷ []) = digits-Solid 10 n
line-Solid (n ∷ m ∷ ns) =
    All-append (λ c. is_space c ≡ false) (decimal_text n ++ 44 ∷ []) (ports_line (m ∷ ns))
      (All-append (λ c. is_space c ≡ false) (decimal_text n) (44 ∷ []) (digits-Solid 10 n)
        (refl, tt))
      (line-Solid (m ∷ ns))

ports_after-line :
    (n : ℕ) (ns : List ℕ)
    → All (λ k. k < 10 ^ 10) (n ∷ ns)
    → ports_after 0 (ports_line (n ∷ ns)) ≡ some (n ∷ ns)
unfolding ports_after
ports_after-line n [] (l, h) =
    ap (ports_after 0) (sym (append-nil (decimal_text n)))
    ∙ ports_after-digits 0 n (decimal_text n) [] (decimal_from-digits 10 n l)
ports_after-line n (m ∷ ns) (l, h) =
    ap (ports_after 0) (append_assoc (decimal_text n) (44 ∷ []) (ports_line (m ∷ ns)))
    ∙ ports_after-digits 0 n (decimal_text n) (44 ∷ ports_line (m ∷ ns))
        (decimal_from-digits 10 n l)
    ∙ rw
        (
          ports_between-number true (ports_line (m ∷ ns)) (IsNumber-line m ns),
          ports_after-line m ns h,
        )
        refl

-- Sorting keeps a list that is in order.
insert_first : (n : ℕ) (ns : List ℕ) → All (λ m. n < m) ns → insert_port n ns ≡ n ∷ ns
insert_first n [] h = refl
insert_first n (m ∷ ms) (l, h) = ground arith

sorted_set-Ascending : (ns : List ℕ) → Ascending ns → sorted_set ns ≡ ns
sorted_set-Ascending [] a = refl
sorted_set-Ascending (n ∷ ns) (h, a) = rw (sorted_set-Ascending ns a) (insert_first n ns h)

in_range-small : (ns : List ℕ) → all (in_range 65535) ns ≡ true → All (λ k. k < 10 ^ 10) ns
in_range-small [] h = tt
in_range-small (n ∷ ns) h = (ground arith, in_range-small ns (ground arith))

-- Ports from 1 to 65535 in order, of which there is one at least, are read back from the line that is
-- written of them.
pub parse_port_list-ports_line :
    (ports : List ℕ)
    → has_ports ports ≡ true
    → Ascending ports
    → parse_port_list (text (ports_line ports)) ≡ ok ports
unfolding parse_port_list checked_ports
parse_port_list-ports_line [] h a = cc
parse_port_list-ports_line (n ∷ ns) h a =
    rw
      (
        strip_text-Solid (ports_line (n ∷ ns)) (line-Solid (n ∷ ns)),
        ports_text-number (ports_line (n ∷ ns)) (IsNumber-line n ns),
        ports_after-line n ns (in_range-small (n ∷ ns) h),
        h,
      )
      (ap ok (sorted_set-Ascending (n ∷ ns) a))
