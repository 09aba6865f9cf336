-- ===== src/Health/RoundTrip.antt =====
-- What `_save_state` of deploy/bot/healthcheck.py writes, `_load_state` reads back.
use Prim.Native.String
use mathlib.Core.Option
use proxy_gateway_plus.Prelude.{
  ℕ, suc, ◌≤◌, ◌≡◌, refl, String, false, Option, none, some, List, [], ◌∷◌, arith, ==_iff, ==_refl,
  List_eq, String_eq, Option_eq, All, length, map, ok, ◌>>=◌, map_result, contains, ap, ◌∙◌, subst,
  sym,
}
use proxy_gateway_plus.Prelude.Json.{pos, int, str, of_list, to_list, to_list-of_list, get}
use proxy_gateway_plus.Health.{Kind, problem, recovery, resolved, Pending, Row, State, decimal}
use proxy_gateway_plus.Health.Encode.{
  encode_kind, encode_problems, encode_delivered, encode_pending, encode_row, encode_rows,
  encode_state,
}
use proxy_gateway_plus.Health.Run.{find_row}
use proxy_gateway_plus.Health.Decode.{
  problem_list, problem_text, timestamp, kind_of, attempts_of, pending_fields, decode_pending,
  decode_delivered, decode_row, has_row_keys, row_fields, checked_row, decode_recipient,
  stored_or_new, decode_current, decode_state, is_schema,
}
use proxy_gateway_plus.Health.Storable.{
  Fits, FitsIfKnown, PendingFits, Storable, Rows, row_keys, AllStorable,
}

texts-encode :
    (ps : List String)
    → All (λ s. String.count s ≤ 16384) ps
    → map_result problem_text (map str ps) ≡ ok ps
unfolding map_result problem_text
texts-encode [] _ = refl
texts-encode (p ∷ ps) (h, hs) = ground (arith, texts-encode ps hs)

length-encode : (ps : List String) → length (to_list (of_list (map str ps))) ≡ length ps
length-encode [] = refl
length-encode (p ∷ ps) = ap suc (length-encode ps)

problem_list-encode : (ps : List String) → Fits ps → problem_list (encode_problems ps) ≡ ok ps
unfolding problem_list encode_problems
problem_list-encode ps (h, hs) =
    rw (length-encode ps, to_list-of_list (map str ps)) (ground (arith, texts-encode ps hs))

decode_delivered-encode :
    (o : Option (List String)) → FitsIfKnown o → decode_delivered (encode_delivered o) ≡ ok o
unfolding decode_delivered encode_delivered encode_problems
decode_delivered-encode none _ = refl
decode_delivered-encode (some ps) h = ap (λ r. r >>= λ qs. ok (some qs)) (problem_list-encode ps h)

kind_of-encode : (k : Kind) → kind_of (encode_kind k) ≡ ok k
unfolding kind_of encode_kind
kind_of-encode problem = refl
kind_of-encode recovery = refl
kind_of-encode resolved = refl

attempts_of-encode : (n : ℕ) → n ≤ 4 → attempts_of (int (pos n)) ≡ ok n
unfolding attempts_of
attempts_of-encode n h = ground arith

pending_fields-encode :
    (p : Pending) → PendingFits (some p) → decode_pending (encode_pending (some p)) ≡ ok (some p)
unfolding decode_pending encode_pending pending_fields timestamp
pending_fields-encode p (fits, few) =
    rw (
      kind_of-encode p.kind,
      attempts_of-encode p.attempts few,
      problem_list-encode p.problems fits,
    )

decode_pending-encode :
    (o : Option Pending) → PendingFits o → decode_pending (encode_pending o) ≡ ok o
unfolding decode_pending encode_pending
decode_pending-encode none _ = refl
decode_pending-encode (some p) h = pending_fields-encode p h

-- A row that can be stored is read back as it was.
pub decode_row-encode : (row : Row) → Storable row → decode_row (encode_row row) ≡ ok row
unfolding decode_row encode_row has_row_keys row_fields checked_row contains
decode_row-encode row h = rw (
  problem_list-encode row.observed h.observed_fits,
  decode_delivered-encode row.delivered h.delivered_fits,
  decode_pending-encode row.pending h.pending_fits,
  h.agrees,
)

-- No key stands twice.
abbrev pub Distinct : List String → Type 0
Distinct [] = Unit
Distinct (k ∷ ks) = (contains k ks ≡ false) × Distinct ks

get-encode_rows :
    (k : String) (rows : Rows) → get (encode_rows rows) k ≡ Option.map encode_row (find_row k rows)
unfolding encode_rows
get-encode_rows k [] = refl
get-encode_rows k ((j, row) ∷ rows) = ground (arith, get-encode_rows k rows)

-- Each row is the one that its key finds in the whole.
abbrev Found : Rows → Rows → Type 0
Found whole rows = All (λ r. find_row r.0 whole ≡ some r.1) rows

Found-later :
    (k : String) (row : Row) (whole rows : Rows)
    → contains k (row_keys rows) ≡ false
    → Found whole rows
    → Found ((k, row) ∷ whole) rows
unfolding contains
Found-later k row whole [] _ _ = tt
Found-later k row whole ((j, r) ∷ rows) fresh (h, hs) =
    (ground (arith, ==_iff k j, ==_iff j k), Found-later k row whole rows (ground arith) hs)

Found-self : (rows : Rows) → Distinct (row_keys rows) → Found rows rows
Found-self [] _ = tt
Found-self ((k, row) ∷ rows) (fresh, ds) =
    (ground (arith, ==_refl k), Found-later k row rows rows fresh (Found-self rows ds))

decode_recipient-encode :
    (whole : Rows) (row : Row) (uid : ℕ)
    → find_row (decimal uid) whole ≡ some row
    → Storable row
    → decode_recipient (encode_rows whole) uid ≡ ok (decimal uid, row)
unfolding decode_recipient stored_or_new
decode_recipient-encode whole row uid found h =
    ap (stored_or_new uid) (get-encode_rows (decimal uid) whole ∙ ap (Option.map encode_row) found)
    ∙ ap (λ r. r >>= λ row. ok (decimal uid, row)) (decode_row-encode row h)

recipients-encode :
    (whole rows : Rows) (uids : List ℕ)
    → row_keys rows ≡ map decimal uids
    → Found whole rows
    → AllStorable rows
    → map_result (decode_recipient (encode_rows whole)) uids ≡ ok rows
unfolding map_result
recipients-encode whole [] [] same found h = refl
recipients-encode whole [] (uid ∷ uids) same found h = cc
recipients-encode whole (r ∷ rows) [] same found h = cc
recipients-encode whole ((k, row) ∷ rows) (uid ∷ uids) same (f, fs) (h, hs) =
    let key : k ≡ decimal uid = ground arith in
    rw (
      decode_recipient-encode whole row uid (subst (λ j. find_row j whole ≡ some row) key f) h,
      recipients-encode whole rows uids (ground arith) fs hs,
      key,
    )

-- A state whose rows can be stored, one for each recipient, is read back as it was.
pub decode_state-encode :
    (s : State) (uids : List ℕ)
    → row_keys s.recipients ≡ map decimal uids
    → Distinct (map decimal uids)
    → Fits s.problems
    → AllStorable s.recipients
    → decode_state (encode_state s) uids ≡ ok s
unfolding decode_state encode_state decode_current is_schema contains
decode_state-encode s uids same distinct fits h = rw (
  problem_list-encode s.problems fits,
  recipients-encode s.recipients s.recipients uids same
      (Found-self s.recipients (subst Distinct (sym same) distinct)) h,
)
