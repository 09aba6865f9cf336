-- ===== src/Policy/Names/Stripped.antt =====
-- Normalizing a name gives a name that is accepted as it is.
use Prim.Native.Char.{Char, code}
use proxy_gateway_plus.Prelude.{
  String, true, false, not, ==_refl, String_eq, ◌≡◌, inl, inr, refl, ap, ◌∙◌, ok, Ensures-eq,
  Ensures-guard, Bool-cases, arith,
}
use proxy_gateway_plus.Prelude.Texts.{is_space}
use proxy_gateway_plus.Prelude.Json.{Json, null, bool, int, float, not_finite, str, arr, obj}
use proxy_gateway_plus.Policy.{bad_name, bad_length, unsafe}
use proxy_gateway_plus.Policy.Names.{
  Unicode, strip_left, strip_right, before_stripped, strip, is_unsafe, any_unsafe, has_length,
  normalize_text, normalize_name, validate_name,
}

strip_right-before :
    (c : Char) (r : String)
    → strip_right r ≡ r
    → strip_right (before_stripped c r) ≡ before_stripped c r
strip_right-before c String.[] h = elim (Bool-cases (is_space (code c))) [
  | inl e ↦ rw e refl
  | inr e ↦ rw (e, e) refl
]
strip_right-before c (String.◌∷◌ d r) h = ap (before_stripped c) h

strip_right_idempotent : (s : String) → strip_right (strip_right s) ≡ strip_right s
strip_right_idempotent String.[] = refl
strip_right_idempotent (String.◌∷◌ c s) =
    strip_right-before c (strip_right s) (strip_right_idempotent s)

-- Past its spaces on the left, a text is empty or begins with another character.
strip_left-before :
    (c : Char) (r : String)
    → is_space (code c) ≡ false
    → strip_left (before_stripped c r) ≡ before_stripped c r
strip_left-before c String.[] e = rw (e, e) refl
strip_left-before c (String.◌∷◌ d r) e = rw e refl

strip_left-right :
    (s : String) → strip_left (strip_right (strip_left s)) ≡ strip_right (strip_left s)
strip_left-right String.[] = refl
strip_left-right (String.◌∷◌ c s) = elim (Bool-cases (is_space (code c))) [
  | inl e ↦ rw e (strip_left-right s)
  | inr e ↦ rw e (strip_left-before c (strip_right s) e)
]

pub strip_idempotent : (s : String) → strip (strip s) ≡ strip s
strip_idempotent s = ap strip_right (strip_left-right s) ∙ strip_right_idempotent (strip_left s)

module _ (u : Unicode) where
  safe-before :
      (c : Char) (r : String)
      → is_unsafe u (code c) ≡ false
      → any_unsafe u r ≡ false
      → any_unsafe u (before_stripped c r) ≡ false
  unfolding any_unsafe
  safe-before c String.[] e h = elim (Bool-cases (is_space (code c))) [
    | inl s ↦ rw s refl
    | inr s ↦ rw (s, e) refl
  ]
  safe-before c (String.◌∷◌ d r) e h = rw e h

  safe-right : (s : String) → any_unsafe u s ≡ false → any_unsafe u (strip_right s) ≡ false
  unfolding any_unsafe
  safe-right String.[] h = h
  safe-right (String.◌∷◌ c s) h =
      safe-before c (strip_right s) (ground arith) (safe-right s (ground arith))

  safe-left : (s : String) → any_unsafe u s ≡ false → any_unsafe u (strip_left s) ≡ false
  unfolding any_unsafe
  safe-left String.[] h = h
  safe-left (String.◌∷◌ c s) h = elim (Bool-cases (is_space (code c))) [
    | inl e ↦ rw e (safe-left s (ground arith))
    | inr e ↦ rw e h
  ]

  -- A name that is as it comes out of normalization is accepted.
  accepted :
      (name label : String)
      → u.nfc name ≡ name
      → strip name ≡ name
      → any_unsafe u name ≡ false
      → has_length u name ≡ true
      → validate_name u (str name) label ≡ ok name
  unfolding validate_name normalize_text
  accepted name label n s safe long = rw (n, safe, s, long, ==_refl name) refl

-- A text that normalization returns is accepted and returned unchanged afterwards, where stripping
-- the spaces around a text in the normal form NFC gives a text in that form.
pub validate_name-normalize :
    (u : Unicode)
    → ((s : String) → u.nfc (strip (u.nfc s)) ≡ strip (u.nfc s))
    → (v : Json) (label : String) (name : String) → normalize_name u v label ≡ ok name
    → validate_name u (str name) label ≡ ok name
unfolding normalize_name normalize_text
validate_name-normalize u nf (str value) label name e =
    Ensures-eq (λ (n : String). validate_name u (str n) label ≡ ok n) (normalize_text u value label)
      name
      (Ensures-guard _ (not (any_unsafe u (u.nfc value))) (bad_name unsafe label) _ (λ safe.
        Ensures-guard _ (has_length u (strip (u.nfc value))) (bad_name bad_length label) _ (λ long.
          accepted u (strip (u.nfc value)) label (nf value) (strip_idempotent (u.nfc value))
            (safe-right u (strip_left (u.nfc value))
              (safe-left u (u.nfc value) (ground (arith, safe))))
            long)))
      e
validate_name-normalize u nf null label name e = cc
validate_name-normalize u nf (bool b) label name e = cc
validate_name-normalize u nf (int n) label name e = cc
validate_name-normalize u nf (float n) label name e = cc
validate_name-normalize u nf not_finite label name e = cc
validate_name-normalize u nf (arr xs) label name e = cc
validate_name-normalize u nf (obj fs) label name e = cc
