-- ===== src/Verdict/Json.antt =====
-- `Record::to_json` and `Record::from_json` of cargo-soothfast/src/verdict.rs.
use soothfast.Base.{
  ℕ, ◌≡◌, Bool, true, false, [], ◌∷◌, Option, none, some, arith, if◌then◌else◌, Text, codes,
  text_eq, or_else,
}
use soothfast.Base.Options.{◌>>=◌}
use soothfast.Base.Json.{
  Value, bool, uint, negint, float, str, get, index, set_key, object, as_str, as_u64, as_bool,
}
use soothfast.Verdict.Types.{
  Verdict, errored, regressed, pass, nothing_to_compare, name, parse, test_verdict, Reuse, Record,
}
use soothfast.Verdict.Ansi.{strip_ansi}
use soothfast.Verdict.Output.{tail}
use soothfast.Verdict.Build.{is_errored}

abbrev pub is_test : Record → Bool
is_test r = text_eq r.kind (codes "test")

unfoldable pub gate_json : Record → Value
gate_json r = object (
    (codes "name", str r.name)
    ∷ (codes "kind", str r.kind)
    ∷ (codes "verdict", str (name r.verdict))
    ∷ (codes "tail", str r.tail)
    ∷ (codes "seconds", uint r.seconds)
    ∷ [])

unfoldable pub test_json : Record → Value
test_json r = object (
    (codes "name", str r.name)
    ∷ (codes "kind", str r.kind)
    ∷ (codes "verdict", str (if is_errored r.verdict then codes "failed" else codes "pass"))
    ∷ (codes "output", str r.tail)
    ∷ (codes "wall_s", uint r.seconds)
    ∷ [])

unfoldable pub reuse_json : Reuse → Value
reuse_json u = object (
    (codes "covered", uint u.covered)
    ∷ (codes "total", uint u.total)
    ∷ (codes "measuring", uint u.measuring)
    ∷ [])

abbrev set_reuse : Option Reuse → Value → Value
set_reuse none v = v
set_reuse (some u) v = set_key v (codes "reuse") (reuse_json u)

abbrev set_flag : Text → Bool → Value → Value
set_flag k true v = set_key v k (bool true)
set_flag k false v = v

unfoldable pub to_json : Record → Value
unfolding gate_json test_json reuse_json set_key
to_json r = set_flag (codes "unevaluated") r.unevaluated (
    set_flag (codes "flaky") r.flaky
      (set_reuse r.reuse (if is_test r then test_json r else gate_json r)))

-- The word of a gate, or of the test runner, with the flag that goes with it.
unfoldable pub read_verdict : Text → Value → Option (Verdict × Bool)
read_verdict word v = elim (parse word) [
  | some verdict ↦ some (verdict, get_bool (index v (codes "flaky")))
  | none ↦ test_verdict word
]
  where
    get_bool : Value → Bool
    get_bool (bool b) = b
    get_bool _ = false

unfoldable pub read_reuse : Value → Option Reuse
read_reuse r = do
  c ← (get (codes "covered") r >>= as_u64)
  t ← (get (codes "total") r >>= as_u64)
  m ← (get (codes "measuring") r >>= as_u64)
  some (record { covered = c; total = t; measuring = m })

unfoldable pub read_tail : Value → Option Text
read_tail v = elim (get (codes "tail") v) [
  | some t ↦ as_str t >>= λ s. some (strip_ansi s)
  | none ↦ (get (codes "output") v >>= as_str) >>= λ s. some (tail (strip_ansi s))
]

abbrev flag : Text → Value → Bool
flag k v = elim (as_bool (index v k)) [ some b ↦ b | none ↦ false ]

-- `s.round() as u64` of an `f64`, given by its bits, is the compiler's.
module _ (round : ℕ → ℕ) where
  -- A negative number rounds to one below zero, which the cast takes to zero.
  abbrev pub read_seconds : Value → Option ℕ
  read_seconds (uint n) = some n
  read_seconds (negint n) = some 0
  read_seconds (float bits) = some (round bits)
  read_seconds _ = none

  unfoldable pub from_json : Value → Option Record
  unfolding read_verdict read_reuse read_tail get index
  from_json v = do
    word ← (get (codes "verdict") v >>= as_str)
    (verdict, flaky) ← read_verdict word v
    tail ← read_tail v
    seconds ← or_else (get (codes "seconds") v) (get (codes "wall_s") v)
    name ← (get (codes "name") v >>= as_str)
    kind ← (get (codes "kind") v >>= as_str)
    seconds ← read_seconds seconds
    some (record {
      name = name;
      kind = kind;
      verdict = verdict;
      tail = tail;
      reuse = get (codes "reuse") v >>= read_reuse;
      seconds = seconds;
      flaky = flaky;
      unevaluated = flag (codes "unevaluated") v;
    })

-- What comes back of a record: escapes are stripped again; a test record has the test runner's two
-- verdicts, its output is trimmed, and a failed one is not flaky.
unfoldable pub reread : Record → Record
reread r =
    if is_test r
    then record r {
      verdict = if is_errored r.verdict then errored else pass;
      tail = tail (strip_ansi r.tail);
      flaky = if is_errored r.verdict then false else r.flaky;
    }
    else record r { tail = strip_ansi r.tail }

module _ (round : ℕ → ℕ) where
  by_cases :
      (test : Bool) (n k t : Text) (s : ℕ) (v : Verdict) (u : Option Reuse) (f e : Bool)
      → let r : Record = record {
        name = n;
        kind = k;
        verdict = v;
        tail = t;
        reuse = u;
        seconds = s;
        flaky = f;
        unevaluated = e;
      } in
        from_json round (
          set_flag
            (codes "unevaluated")
            e
            (set_flag (codes "flaky") f (set_reuse u (if test then test_json r else gate_json r))))
        ≡ some (
            if test
            then record r {
              verdict = if is_errored v then errored else pass;
              tail = tail (strip_ansi t);
              flaky = if is_errored v then false else f;
            }
            else record r { tail = strip_ansi t })
  unfolding to_json from_json parse test_verdict name
  by_cases true n k t s errored u f e = ground arith
  by_cases true n k t s regressed u f e = ground arith
  by_cases true n k t s pass u f e = ground arith
  by_cases true n k t s nothing_to_compare u f e = ground arith
  by_cases false n k t s errored u f e = ground arith
  by_cases false n k t s regressed u f e = ground arith
  by_cases false n k t s pass u f e = ground arith
  by_cases false n k t s nothing_to_compare u f e = ground arith

  -- A record that is written is read back with every field kept, but for its text, which is stripped of
  -- escapes, and but for a test record, which keeps only failed or passed, a trimmed output and, when it
  -- passed, its flaky flag.
  pub from_json-to_json : (r : Record) → from_json round (to_json r) ≡ some (reread r)
  unfolding to_json reread
  from_json-to_json r =
      by_cases (is_test r) r.name r.kind r.tail r.seconds r.verdict r.reuse r.flaky r.unevaluated
