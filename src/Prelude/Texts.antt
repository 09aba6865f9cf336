-- ===== src/Prelude/Texts.antt =====
-- Texts as lists of code points, and what Python's `str` does with them.
use Prim.Native.Char.{code}
use Prim.Native.Nat.{ℕ}
use Prim.Native.String.{String}
use mathlib.Core.Bool.{Bool, true, false, ◌&&◌, ◌||◌}
use mathlib.Core.List.{List, [], ◌∷◌, ◌++◌}
use proxy_gateway_plus.Prelude.Tests.{if◌then◌else◌, leb, nat_eq}

abbrev pub Text : Type 0
Text = List ℕ

abbrev pub codes : String → Text
codes String.[] = []
codes (String.◌∷◌ c s) = code c ∷ codes s

-- `str.isspace`
abbrev pub is_space : ℕ → Bool
is_space n =
    (leb 9 n && leb n 13)
    || (leb 28 n && leb n 32)
    || nat_eq n 133
    || nat_eq n 160
    || nat_eq n 5760
    || (leb 8192 n && leb n 8202)
    || nat_eq n 8232
    || nat_eq n 8233
    || nat_eq n 8239
    || nat_eq n 8287
    || nat_eq n 12288

-- `text.lstrip()`, `text.rstrip()` and `text.strip()`
abbrev pub lstrip : Text → Text
lstrip [] = []
lstrip (c ∷ cs) = if is_space c then lstrip cs else c ∷ cs

abbrev pub before_blank : ℕ → Text → Text
before_blank c [] = if is_space c then [] else c ∷ []
before_blank c cs = c ∷ cs

abbrev pub rstrip : Text → Text
rstrip [] = []
rstrip (c ∷ cs) = before_blank c (rstrip cs)

abbrev pub strip_text : Text → Text
strip_text text = rstrip (lstrip text)

-- The characters that end a line.
abbrev pub ends_line : ℕ → Bool
ends_line n =
    (leb 10 n && leb n 13)
    || (leb 28 n && leb n 30)
    || nat_eq n 133
    || nat_eq n 8232
    || nat_eq n 8233

abbrev pub onto_first : ℕ → List Text → List Text
onto_first c [] = (c ∷ []) ∷ []
onto_first c (l ∷ ls) = (c ∷ l) ∷ ls

-- A carriage return before a line feed ends no line of its own.
abbrev pub end_line : ℕ → Text → List Text → List Text
end_line c [] ls = [] ∷ ls
end_line c (d ∷ cs) ls = if nat_eq c 13 && nat_eq d 10 then ls else [] ∷ ls

-- `text.splitlines()`
unfoldable pub splitlines : Text → List Text
splitlines [] = []
splitlines (c ∷ cs) =
    let ls = splitlines cs in if ends_line c then end_line c cs ls else onto_first c ls

-- `sep.join(lines)`
abbrev pub join_with : Text → List Text → Text
join_with sep [] = []
join_with sep (l ∷ []) = l
join_with sep (l ∷ ls) = l ++ sep ++ join_with sep ls

abbrev pub starts_with : Text → Text → Bool
starts_with text [] = true
starts_with [] (p ∷ ps) = false
starts_with (c ∷ cs) (p ∷ ps) = nat_eq c p && starts_with cs ps
