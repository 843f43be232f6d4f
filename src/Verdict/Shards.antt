-- ===== src/Verdict/Shards.antt =====
-- What `fold` does to the records of one project, against the specification `merged`.
use mathlib.Core.List.{Perm, Permᴰ}
use mathlib.Core.List.Permᴰ.{nil, cons, swap, trans}
use mathlib.Core.Logic.{∥∥₁_elim}
use mathlib.Core.Option
use soothfast.Base.{
  ◌≡◌, refl, sym, ap, ◌∙◌, Bool, true, false, List, [], ◌∷◌, Option, none, some, arith,
  if◌then◌else◌, Text, text_eq, text_eq_iff, Option-cases, inl, inr,
}
use soothfast.Base.BTreeMap.{BTreeMap, get, insert, get-insert, IsOrdered, insert-IsOrdered}
use soothfast.Verdict.Types.{Record}
use soothfast.Verdict.Absorb.{
  absorb, Outcome, outcome, combine, combine_assoc, combine_comm, outcome-absorb,
}
use soothfast.Verdict.Fold.{base_name, renamed, fold_step, fold_loop}

-- Outcomes of a project that may have no record yet.
unfoldable pub join_outcomes : Option Outcome → Option Outcome → Option Outcome
join_outcomes none b = b
join_outcomes (some a) none = some a
join_outcomes (some a) (some b) = some (combine a b)

join_outcomes-none : (a : Option Outcome) → join_outcomes a none ≡ a
unfolding join_outcomes
join_outcomes-none none = refl
join_outcomes-none (some a) = refl

join_outcomes_assoc :
    (a b c : Option Outcome)
    → join_outcomes (join_outcomes a b) c ≡ join_outcomes a (join_outcomes b c)
unfolding join_outcomes
join_outcomes_assoc none b c = refl
join_outcomes_assoc (some a) none c = refl
join_outcomes_assoc (some a) (some b) none = refl
join_outcomes_assoc (some a) (some b) (some c) = ap some (combine_assoc a b c)

join_outcomes_comm : (a b : Option Outcome) → join_outcomes a b ≡ join_outcomes b a
unfolding join_outcomes
join_outcomes_comm none none = refl
join_outcomes_comm none (some b) = refl
join_outcomes_comm (some a) none = refl
join_outcomes_comm (some a) (some b) = ap some (combine_comm a b)

-- The outcome that one record gives the project `n`.
abbrev share : Text → Record → Option Outcome
share n r = if text_eq (base_name r) n then some (outcome r) else none

-- The specification: the outcomes of the project's records, combined.
unfoldable pub merged : Text → List Record → Option Outcome
merged n [] = none
merged n (r ∷ rs) = join_outcomes (share n r) (merged n rs)

abbrev entry : Text → BTreeMap Record → Option Outcome
entry n m = Option.map outcome (get n m)

entry-insert :
    (k n : Text) (r : Record) (m : BTreeMap Record)
    → entry n (insert k r m) ≡ (if text_eq k n then some (outcome r) else entry n m)
entry-insert k n r m = rw (get-insert k n r m) (by_test (text_eq k n))
  where
    by_test :
        (b : Bool)
        → Option.map outcome (if b then some r else get n m)
          ≡ (if b then some (outcome r) else entry n m)
    by_test true = refl
    by_test false = refl

entry-fold_step :
    (n : Text) (m : BTreeMap Record) (r : Record)
    → entry n (fold_step m r) ≡ join_outcomes (entry n m) (share n r)
unfolding fold_step join_outcomes renamed
entry-fold_step n m r = elim (Option-cases (get (base_name r) m)) [
  | inl e ↦ rw (e, fold_step) (rw (entry-insert (base_name r) n _ m) (absent e))
  | inr (seen, e) ↦ rw (e, fold_step) (rw (entry-insert (base_name r) n _ m) (present seen e))
]
  where
    absent :
        get (base_name r) m ≡ none
        → (if text_eq (base_name r) n then some (outcome r) else entry n m)
          ≡ join_outcomes (entry n m) (share n r)
    absent e = ground (arith, text_eq_iff (base_name r) n, join_outcomes-none (entry n m))

    present :
        (seen : Record)
        → get (base_name r) m ≡ some seen
        → (if text_eq (base_name r) n then some (outcome (absorb seen (renamed r))) else entry n m)
          ≡ join_outcomes (entry n m) (share n r)
    present seen e = ground (
      arith,
      text_eq_iff (base_name r) n,
      join_outcomes-none (entry n m),
      outcome-absorb seen (renamed r),
    )

entry-fold_loop :
    (n : Text) (m : BTreeMap Record) (rs : List Record)
    → entry n (fold_loop m rs) ≡ join_outcomes (entry n m) (merged n rs)
unfolding fold_loop merged
entry-fold_loop n m [] = sym (join_outcomes-none (entry n m))
entry-fold_loop n m (r ∷ rs) =
    entry-fold_loop n (fold_step m r) rs
    ∙ ap (λ x. join_outcomes x (merged n rs)) (entry-fold_step n m r)
    ∙ join_outcomes_assoc (entry n m) (share n r) (merged n rs)

fold_step-IsOrdered : (m : BTreeMap Record) (r : Record) → IsOrdered m → IsOrdered (fold_step m r)
unfolding fold_step
fold_step-IsOrdered m r o = elim (Option-cases (get (base_name r) m)) [
  | inl e ↦ rw (e, fold_step) (insert-IsOrdered (base_name r) (renamed r) m o)
  | inr (seen, e) ↦ rw (e, fold_step) (insert-IsOrdered (base_name r) (absorb seen (renamed r)) m o)
]

fold_loop-IsOrdered :
    (m : BTreeMap Record) (rs : List Record) → IsOrdered m → IsOrdered (fold_loop m rs)
unfolding fold_loop
fold_loop-IsOrdered m [] o = o
fold_loop-IsOrdered m (r ∷ rs) o =
    fold_loop-IsOrdered (fold_step m r) rs (fold_step-IsOrdered m r o)

-- Under every project's name the fold holds one section, none where the project has no record, and the names
-- stand in strictly ascending order. The section's verdict is the worst of all of the project's records, its
-- counts are their sums modulo 2 ^ 64, its time the longest, and each of its two flags is set when one of
-- them sets it. Nothing is said of its output text and its kind.
pub fold_loop_lem :
    (n : Text) (rs : List Record)
    → (Option.map outcome (get n (fold_loop [] rs)) ≡ merged n rs) × IsOrdered (fold_loop [] rs)
unfolding get join_outcomes
fold_loop_lem n rs = (entry-fold_loop n [] rs, fold_loop-IsOrdered [] rs tt)

join_outcomes_swap :
    (a b c : Option Outcome)
    → join_outcomes a (join_outcomes b c) ≡ join_outcomes b (join_outcomes a c)
join_outcomes_swap a b c =
    sym (join_outcomes_assoc a b c)
    ∙ ap (λ x. join_outcomes x c) (join_outcomes_comm a b)
    ∙ join_outcomes_assoc b a c

merged-Permᴰ : (n : Text) {rs ts : List Record} → Permᴰ rs ts → merged n rs ≡ merged n ts
unfolding merged
merged-Permᴰ n nil = refl
merged-Permᴰ n (cons {a} {b} {l₁} {l₂} e p) =
    ap (λ r. join_outcomes (share n r) (merged n l₁)) e
    ∙ ap (join_outcomes (share n b)) (merged-Permᴰ n p)
merged-Permᴰ n (swap {l} e f) = rw (e, f) (join_outcomes_swap _ _ _)
merged-Permᴰ n (trans p q) = merged-Permᴰ n p ∙ merged-Permᴰ n q

Outcome-set : IsSet (Option Outcome)
Outcome-set = hlevel

-- Whatever the order in which the results of a project's shards are read, its section has the same
-- verdict, counts, time and flags.
pub fold_loop-perm :
    (n : Text) (rs ts : List Record)
    → Perm rs ts
    → Option.map outcome (get n (fold_loop [] rs)) ≡ Option.map outcome (get n (fold_loop [] ts))
fold_loop-perm n rs ts p =
    (fold_loop_lem n rs).0
    ∙ ∥∥₁_elim p (Outcome-set (merged n rs) (merged n ts)) (merged-Permᴰ n)
    ∙ sym (fold_loop_lem n ts).0
