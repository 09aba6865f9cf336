-- ===== src/Health/Message.antt =====
-- `_message` of deploy/bot/healthcheck.py, over the code points of the text.
use Prim.Native.Char.{code}
use proxy_gateway_plus.Prelude.{
  ℕ, ◌+◌, ◌-◌, ◌*◌, ◌≤◌, ◌≡◌, refl, String, List, [], ◌∷◌, ◌++◌, arith, ltb, leb, if◌then◌else◌,
  Bool-cases, inl, inr,
}
use proxy_gateway_plus.Health.{Kind, problem, recovery, resolved, Pending}

abbrev pub codes : String → List ℕ
codes String.[] = []
codes (String.◌∷◌ c s) = code c ∷ codes s

-- `"\n".join(items)`
join_lines : List String → List ℕ
join_lines [] = []
join_lines (s ∷ []) = codes s
join_lines (s ∷ rest) = codes s ++ b'\n' ∷ join_lines rest

-- UTF-16 code units of a character, and of a text.
abbrev units : ℕ → ℕ
units c = if ltb c 65536 then 1 else 2

pub utf16_length : List ℕ → ℕ
utf16_length [] = 0
utf16_length (c ∷ cs) = units c + utf16_length cs

-- `encoded[:2 * n].decode("utf-16-le", errors="ignore")`: half of a surrogate pair is dropped.
cut : ℕ → List ℕ → List ℕ
cut n [] = []
cut n (c ∷ cs) = let rest = cut (n - units c) cs in if leb (units c) n then c ∷ rest else []

abbrev cut_notice : String
cut_notice = "\n…详情已截短，请运行 sudo pdg doctor"

text_of : Kind → List String → List ℕ
unfolding join_lines
text_of problem ps =
    codes "🚨 PrivDNS Gateway 异常\n" ++ (join_lines ps ++ codes "\n\n详情: sudo pdg doctor")
text_of resolved ps = codes "✅ PrivDNS Gateway 期间异常已恢复\n之前的异常提醒未确认送达：\n" ++ join_lines ps
text_of recovery ps = codes "✅ PrivDNS Gateway 已恢复正常"

-- 7600 bytes of UTF-16 are 3800 code units.
unfoldable pub message : Pending → List ℕ
unfolding text_of cut utf16_length
message p =
    let text = text_of p.kind p.problems in
    if ltb 7600 (2 * utf16_length text) then cut 3800 text ++ codes cut_notice else text

utf16_length-append : (s t : List ℕ) → utf16_length (s ++ t) ≡ utf16_length s + utf16_length t
unfolding utf16_length
utf16_length-append [] t = omega arith
utf16_length-append (c ∷ s) t = omega (arith, utf16_length-append s t)

utf16_length-cut : (n : ℕ) (s : List ℕ) → utf16_length (cut n s) ≤ n
unfolding utf16_length cut
utf16_length-cut n [] = omega arith
utf16_length-cut n (c ∷ s) = ground (arith, utf16_length-cut (n - units c) s)

notice_units : utf16_length (codes cut_notice) ≡ 27
unfolding utf16_length
notice_units = refl

-- Whatever the problems, the text has at most 3827 UTF-16 code units; Telegram takes 4096.
pub message-le-limit : (p : Pending) → utf16_length (message p) ≤ 3827
unfolding message
message-le-limit p = elim (Bool-cases (ltb 7600 (2 * utf16_length text))) [
  | inl long ↦ rw long (
      omega (
        arith,
        utf16_length-append (cut 3800 text) (codes cut_notice),
        utf16_length-cut 3800 text,
        notice_units,
      ))
  | inr fits ↦ rw fits (ground arith)
]
  where
    text : List ℕ
    text = text_of p.kind p.problems
