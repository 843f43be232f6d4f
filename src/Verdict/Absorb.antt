-- ===== src/Verdict/Absorb.antt =====
-- `Record::absorb` of cargo-soothfast/src/verdict.rs, and what it does to all of a record but its
-- text.
use Prim.Native.Nat.{Ordering}
use soothfast.Base.{
  ℕ, ◌+◌, ◌%◌, ◌^◌, ◌≡◌, refl, Bool, ◌||◌, [], ◌∷◌, ◌++◌, Option, none, some, arith, if◌then◌else◌,
  Text, or_else, max, ||_assoc, ||_comm,
}
use soothfast.Base.Parse.{is_empty}
use soothfast.Base.Options.{add_u64}
use soothfast.Base.Lines.{newline}
use soothfast.Verdict.Types.{
  Verdict, errored, regressed, pass, nothing_to_compare, verdict_cmp, verdict_min, Reuse, Record,
}
use soothfast.Verdict.Output.{tail}

-- The `match` on the verdicts: a worse one brings its output, equal ones are joined and trimmed.
unfoldable pub absorbed_tail : Record → Record → Text
absorbed_tail self other =
    if is_empty other.tail then self.tail else elim (verdict_cmp other.verdict self.verdict) [
      | Ordering.lt ↦ other.tail
      | Ordering.eq ↦
          tail ((if is_empty self.tail then self.tail else self.tail ++ newline ∷ []) ++ other.tail)
      | Ordering.gt ↦ self.tail
    ]

abbrev pub add_reuse : Option Reuse → Option Reuse → Option Reuse
add_reuse (some a) (some b) = some (record {
  covered = add_u64 a.covered b.covered;
  total = add_u64 a.total b.total;
  measuring = add_u64 a.measuring b.measuring;
})
add_reuse a b = or_else a b

unfoldable pub absorb : Record → Record → Record
absorb self other = record self {
  tail = absorbed_tail self other;
  verdict = verdict_min self.verdict other.verdict;
  reuse = add_reuse self.reuse other.reuse;
  seconds = max self.seconds other.seconds;
  flaky = self.flaky || other.flaky;
  unevaluated = self.unevaluated || other.unevaluated;
}

-- A record without its name, kind and text.
pub record Outcome : Type 0 where
  pub verdict : Verdict
  pub reuse : Option Reuse
  pub seconds : ℕ
  pub flaky : Bool
  pub unevaluated : Bool

abbrev pub outcome : Record → Outcome
outcome r = record {
  verdict = r.verdict;
  reuse = r.reuse;
  seconds = r.seconds;
  flaky = r.flaky;
  unevaluated = r.unevaluated;
}

-- The specification: the worse verdict, the sums of the counts modulo 2 ^ 64 where both have some, the longer
-- time, either flag.
abbrev pub worse : Verdict → Verdict → Verdict
worse errored w = errored
worse regressed errored = errored
worse regressed w = regressed
worse pass nothing_to_compare = pass
worse pass w = w
worse nothing_to_compare w = w

abbrev pub sum_u64 : ℕ → ℕ → ℕ
sum_u64 a b = (a + b) % 2 ^ 64

abbrev pub summed : Option Reuse → Option Reuse → Option Reuse
summed none b = b
summed (some a) none = some a
summed (some a) (some b) = some (record {
  covered = sum_u64 a.covered b.covered;
  total = sum_u64 a.total b.total;
  measuring = sum_u64 a.measuring b.measuring;
})

unfoldable pub combine : Outcome → Outcome → Outcome
combine a b = record {
  verdict = worse a.verdict b.verdict;
  reuse = summed a.reuse b.reuse;
  seconds = max a.seconds b.seconds;
  flaky = a.flaky || b.flaky;
  unevaluated = a.unevaluated || b.unevaluated;
}

verdict_min-worse : (v w : Verdict) → verdict_min v w ≡ worse v w
verdict_min-worse v w = ground arith

add_reuse-summed : (a b : Option Reuse) → add_reuse a b ≡ summed a b
add_reuse-summed none none = refl
add_reuse-summed none (some b) = refl
add_reuse-summed (some a) none = refl
add_reuse-summed (some a) (some b) = refl

pub outcome-absorb : (a b : Record) → outcome (absorb a b) ≡ combine (outcome a) (outcome b)
unfolding absorb combine
outcome-absorb a b = cc (verdict_min-worse a.verdict b.verdict, add_reuse-summed a.reuse b.reuse)

worse_assoc : (u v w : Verdict) → worse (worse u v) w ≡ worse u (worse v w)
worse_assoc u v w = ground arith

worse_comm : (u v : Verdict) → worse u v ≡ worse v u
worse_comm u v = ground arith

sum_u64_assoc : (a b c : ℕ) → sum_u64 (sum_u64 a b) c ≡ sum_u64 a (sum_u64 b c)
sum_u64_assoc a b c = omega arith

sum_u64_comm : (a b : ℕ) → sum_u64 a b ≡ sum_u64 b a
sum_u64_comm a b = omega arith

summed_assoc : (a b c : Option Reuse) → summed (summed a b) c ≡ summed a (summed b c)
summed_assoc none none c = refl
summed_assoc none (some b) none = refl
summed_assoc none (some b) (some c) = refl
summed_assoc (some a) none none = refl
summed_assoc (some a) none (some c) = refl
summed_assoc (some a) (some b) none = refl
summed_assoc (some a) (some b) (some c) = cc (
  sum_u64_assoc a.covered b.covered c.covered,
  sum_u64_assoc a.total b.total c.total,
  sum_u64_assoc a.measuring b.measuring c.measuring,
)

summed_comm : (a b : Option Reuse) → summed a b ≡ summed b a
summed_comm none none = refl
summed_comm none (some b) = refl
summed_comm (some a) none = refl
summed_comm (some a) (some b) = cc (
  sum_u64_comm a.covered b.covered,
  sum_u64_comm a.total b.total,
  sum_u64_comm a.measuring b.measuring,
)

pub combine_assoc : (a b c : Outcome) → combine (combine a b) c ≡ combine a (combine b c)
unfolding combine
combine_assoc a b c = cc (
  worse_assoc a.verdict b.verdict c.verdict,
  summed_assoc a.reuse b.reuse c.reuse,
  ||_assoc a.flaky b.flaky c.flaky,
  ||_assoc a.unevaluated b.unevaluated c.unevaluated,
  max_assoc a.seconds b.seconds c.seconds,
)
  where
    max_assoc : (x y z : ℕ) → max (max x y) z ≡ max x (max y z)
    max_assoc x y z = omega arith

pub combine_comm : (a b : Outcome) → combine a b ≡ combine b a
unfolding combine
combine_comm a b = cc (
  worse_comm a.verdict b.verdict,
  summed_comm a.reuse b.reuse,
  ||_comm a.flaky b.flaky,
  ||_comm a.unevaluated b.unevaluated,
  max_comm a.seconds b.seconds,
)
  where
    max_comm : (x y : ℕ) → max x y ≡ max y x
    max_comm x y = omega arith
