-- ===== src/Verdict/Types.antt =====
-- The data of cargo-soothfast/src/verdict.rs: verdicts, reuse counts, records, and its constants.
use soothfast.Base.{
  ℕ, ◌≡◌, refl, Bool, true, false, ◌||◌, List, [], ◌∷◌, Option, none, some, arith, if◌then◌else◌,
  Text, codes, text_eq, text_eq→eq,
}
use Prim.Native.Nat.{Ordering, compare}

pub data Verdict : Type 0 where
  errored regressed pass nothing_to_compare : Verdict

-- The order of declaration, which `derive(Ord)` takes: worst first.
abbrev pub rank : Verdict → ℕ
rank errored = 0
rank regressed = 1
rank pass = 2
rank nothing_to_compare = 3

abbrev pub verdict_cmp : Verdict → Verdict → Ordering
verdict_cmp v w = compare (rank v) (rank w)

-- `Ord::min`: the first where they are equal.
abbrev pub verdict_min : Verdict → Verdict → Verdict
verdict_min v w = elim (verdict_cmp w v) [ Ordering.lt ↦ w | _ ↦ v ]

unfoldable pub name : Verdict → Text
name errored = codes "errored"
name regressed = codes "regressed"
name pass = codes "pass"
name nothing_to_compare = codes "nothing-to-compare"

-- `find` over the four verdicts in turn.
unfoldable pub parse : Text → Option Verdict
parse s =
    if text_eq (name errored) s
    then some errored
    else if text_eq (name regressed) s
    then some regressed
    else if text_eq (name pass) s
    then some pass
    else if text_eq (name nothing_to_compare) s
    then some nothing_to_compare
    else none

-- The test runner's words: the verdict, and whether the pass was flaky.
unfoldable pub test_verdict : Text → Option (Verdict × Bool)
test_verdict word =
    if text_eq word (codes "reused") || text_eq word (codes "skipped")
    then some (pass, false)
    else if text_eq word (codes "flaky")
    then some (pass, true)
    else if text_eq word (codes "failed")
    then some (errored, false)
    else none

pub record Reuse : Type 0 where
  pub covered : ℕ
  pub total : ℕ
  pub measuring : ℕ

pub record Record : Type 0 where
  pub name : Text
  pub kind : Text
  pub verdict : Verdict
  pub tail : Text
  pub reuse : Option Reuse
  pub seconds : ℕ
  pub flaky : Bool
  pub unevaluated : Bool

abbrev pub tail_lines : ℕ
tail_lines = 40

abbrev pub reuse_line : Text
reuse_line = codes "items a stored measurement covers"

abbrev pub reuse_one_sided : Text
reuse_one_sided = codes "items run code a stored measurement covers"

abbrev pub nothing_to_compare_note : Text
nothing_to_compare_note = codes "nothing to compare"

abbrev pub claims_skipped : Text
claims_skipped = codes "claims not evaluated"

abbrev pub kinds : List Text
kinds = codes "rust" ∷ codes "import" ∷ codes "docs" ∷ codes "test" ∷ []

abbrev pub body_limit : ℕ
body_limit = 65_000

abbrev pub truncated : Text
truncated = codes "output truncated"

parse-name_self : (v : Verdict) → parse (name v) ≡ some v
unfolding parse name text_eq
parse-name_self errored = refl
parse-name_self regressed = refl
parse-name_self pass = refl
parse-name_self nothing_to_compare = refl

parse_sound : (s : Text) (v : Verdict) → parse s ≡ some v → name v ≡ s
unfolding parse
parse_sound s v e = ground (
  arith,
  text_eq→eq (name errored) s,
  text_eq→eq (name regressed) s,
  text_eq→eq (name pass) s,
  text_eq→eq (name nothing_to_compare) s,
)

-- The words are read back as the verdicts that they stand for, and no other word is read.
pub parse-name :
    (s : Text) (v : Verdict) → (parse s ≡ some v → name v ≡ s) × (parse (name v) ≡ some v)
parse-name s v = (parse_sound s v, parse-name_self v)
