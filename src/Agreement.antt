-- ===== src/Agreement.antt =====
-- cargo-soothfast/src/agreement.rs: whether repeated readings of one counter agree well enough to be
-- stored. The percentage is computed in f64: a parameter says whether `diff as f64 / low as f64 * 100.0`
-- is at most the tolerance's percentage.
pub mod Settled
mod Tests
use soothfast.Base.{
  ℕ, ◌-◌, min, max, Bool, ◌||◌, List, [], ◌∷◌, Option, none, some, if◌then◌else◌, leb, get_elem?,
}

pub data Agreement : Type 0 where
  store : ℕ → Agreement
  refuse : (low high : ℕ) → Agreement

-- `a.abs_diff(b)`
abbrev pub abs_diff : ℕ → ℕ → ℕ
abs_diff a b = if leb a b then b - a else a - b

abbrev pub insert_sorted : ℕ → List ℕ → List ℕ
insert_sorted a [] = a ∷ []
insert_sorted a (b ∷ bs) = if leb a b then a ∷ b ∷ bs else b ∷ insert_sorted a bs

-- `[first, second, third]` after `sort_unstable`
abbrev pub sorted : ℕ → ℕ → ℕ → List ℕ
sorted a b c = insert_sorted a (insert_sorted b (insert_sorted c []))

abbrev pub at : List ℕ → ℕ → ℕ
at xs i = elim (get_elem? xs i) [ some n ↦ n | none ↦ 0 ]

module _ (abs : ℕ) (within_pct : ℕ → ℕ → Bool) where
  unfoldable pub within : ℕ → ℕ → Bool
  within a b = leb (abs_diff a b) abs || within_pct (abs_diff a b) (max (min a b) 1)

  unfoldable pub settle : ℕ → ℕ → ℕ → Agreement
  settle first second third =
      if within first second
      then store first
      else if within first third || within second third
      then store (at (sorted first second third) 1)
      else refuse (at (sorted first second third) 0) (at (sorted first second third) 2)
