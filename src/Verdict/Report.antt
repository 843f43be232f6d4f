-- ===== src/Verdict/Report.antt =====
-- `fails`, `errored`, `expected` and the body of `merge` of cargo-soothfast/src/verdict.rs. The files
-- that `merge` reads and writes are its argument and its result.
use Prim.Native.Nat.{Ordering}
use soothfast.Base.{
  ℕ, Bool, true, false, not, List, [], ◌∷◌, ◌++◌, Option, none, some, if◌then◌else◌, Text, codes,
  split_once, mem_text, any, map, is_some,
}
use soothfast.Base.Order.{text_cmp}
use soothfast.Verdict.Types.{
  Verdict, errored, regressed, pass, nothing_to_compare, verdict_cmp, Record, kinds,
}
use soothfast.Verdict.Fold.{fold}

-- Regressions fail unless they were accepted; an error always does.
abbrev pub failing : Bool → Verdict → Bool
failing accepted errored = true
failing accepted regressed = not accepted
failing accepted pass = false
failing accepted nothing_to_compare = false

unfoldable pub fails : List Record → Bool → Bool
fails rs accepted = any (λ (r : Record). failing accepted r.verdict) rs

unfoldable pub errored_record : Text → Text → Text → Record
errored_record name kind tail = record {
  name = name;
  kind = kind;
  verdict = errored;
  tail = tail;
  reuse = none;
  seconds = 0;
  flaky = false;
  unevaluated = false;
}

-- `NAME:KIND`; none stands for the error message.
unfoldable pub expected : Text → Option (Text × Text)
expected arg = elim (split_once arg (codes ":")) [
  | some (name, kind) ↦ if mem_text kind kinds then some (name, kind) else none
  | none ↦ none
]

-- Names of the records as they were read, shards with their `#`.
abbrev pub seen_names : List Record → List Text
seen_names = map λ (r : Record). r.name

-- The errored sections of the expected names that no record has.
unfoldable pub missing : List Text → List (Text × Text) → List Record
missing seen [] = []
missing seen ((name, kind) ∷ expect) =
    let rest = missing seen expect in
    if mem_text name seen
    then rest
    else errored_record name kind (codes "the job recorded no result") ∷ rest

-- Whether a record is to stand before another: by verdict, then by name.
unfoldable pub record_cmp : Record → Record → Ordering
record_cmp a b = elim (verdict_cmp a.verdict b.verdict) [
  | Ordering.eq ↦ text_cmp a.name b.name
  | o ↦ o
]

-- A stable sort by `record_cmp`, as `sort_by` is.
unfoldable pub insert_record : Record → List Record → List Record
insert_record r [] = r ∷ []
insert_record r (s ∷ rs) = elim (record_cmp s r) [
  | Ordering.lt ↦ s ∷ insert_record r rs
  | _ ↦ r ∷ s ∷ rs
]

unfoldable pub sort_records : List Record → List Record
unfolding insert_record
sort_records [] = []
sort_records (r ∷ rs) = insert_record r (sort_records rs)

-- The records of the comment, from those read and the names expected.
unfoldable pub merge_records : List Record → List (Text × Text) → List Record
merge_records raw expect = sort_records (fold raw ++ missing (seen_names raw) expect)

-- The exit code of `merge`: `i32::from(fails(…))`.
unfoldable pub merge_exit : List Record → List (Text × Text) → Option Text → ℕ
merge_exit raw expect accepted =
    if fails (merge_records raw expect) (is_some accepted) then 1 else 0
