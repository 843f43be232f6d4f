-- ===== src/Verdict/Sort.antt =====
-- The order of the sections in the comment.
use Prim.Native.Nat.{Ordering}
use Prim.Native.Nat.Ordering.{lt, eq, gt}
use mathlib.Core.List.{Perm}
use mathlib.Core.List.Perm
use soothfast.Base.{ℕ, ◌<◌, ◌≡◌, ◌≢◌, ◌⊎◌, inl, inr, refl, Text, List, [], ◌∷◌, arith}
use soothfast.Base.Order.{text_cmp, text_cmp_asymm}
use soothfast.Verdict.Types.{
  Verdict, errored, regressed, pass, nothing_to_compare, verdict_cmp, Record,
}
use soothfast.Verdict.Report.{record_cmp, insert_record, sort_records}

-- No record stands before the next that the order puts after it.
abbrev IsSorted : List Record → Type 0
IsSorted [] = Unit
IsSorted (r ∷ []) = Unit
IsSorted (r ∷ s ∷ rs) = (record_cmp s r ≡ lt → ⊥) × IsSorted (s ∷ rs)

-- How good a verdict is.
unfoldable pub goodness : Verdict → ℕ
goodness errored = 0
goodness regressed = 1
goodness pass = 2
goodness nothing_to_compare = 3

-- The first record is worse, or as bad and its name is not the later one.
abbrev pub Before : Record → Record → Type 0
Before r s =
    (goodness r.verdict < goodness s.verdict)
    ⊎ ((r.verdict ≡ s.verdict) × (text_cmp s.name r.name ≢ lt))

abbrev pub IsWorstFirst : List Record → Type 0
IsWorstFirst [] = Unit
IsWorstFirst (r ∷ []) = Unit
IsWorstFirst (r ∷ s ∷ rs) = Before r s × IsWorstFirst (s ∷ rs)

record_cmp_asymm : (a b : Record) → record_cmp a b ≡ lt → record_cmp b a ≡ lt → ⊥
unfolding record_cmp
record_cmp_asymm a b h k = ground (arith, text_cmp_asymm a.name b.name)

insert_record-IsSorted :
    (r : Record) (rs : List Record) → IsSorted rs → IsSorted (insert_record r rs)
unfolding insert_record
insert_record-IsSorted r [] h = tt
insert_record-IsSorted r (s ∷ []) h = ground (arith, record_cmp_asymm s r)
insert_record-IsSorted r (s ∷ t ∷ rs) h =
    ground (arith, record_cmp_asymm s r, insert_record-IsSorted r (t ∷ rs) h.1)

insert_record-perm : (r : Record) (rs : List Record) → Perm (insert_record r rs) (r ∷ rs)
unfolding insert_record
insert_record-perm r [] = Perm.refl _
insert_record-perm r (s ∷ rs) = by_cmp (record_cmp s r) (insert_record-perm r rs)
  where
    by_cmp :
        (o : Ordering)
        → Perm (insert_record r rs) (r ∷ rs)
        → Perm (elim o [ lt ↦ s ∷ insert_record r rs | _ ↦ r ∷ s ∷ rs ]) (r ∷ s ∷ rs)
    by_cmp lt p = Perm.trans (Perm.cons s p) (Perm.swap r s rs)
    by_cmp eq p = Perm.refl _
    by_cmp gt p = Perm.refl _

sort_records-IsSorted : (rs : List Record) → IsSorted (sort_records rs)
unfolding sort_records
sort_records-IsSorted [] = tt
sort_records-IsSorted (r ∷ rs) =
    insert_record-IsSorted r (sort_records rs) (sort_records-IsSorted rs)

sort_records-perm : (rs : List Record) → Perm (sort_records rs) rs
unfolding sort_records
sort_records-perm [] = Perm.refl _
sort_records-perm (r ∷ rs) =
    Perm.trans (insert_record-perm r (sort_records rs)) (Perm.cons r (sort_records-perm rs))

Before-by_verdict :
    (n m : Text) (u v : Verdict)
    → (elim (verdict_cmp v u) [ eq ↦ text_cmp m n | o ↦ o ] ≡ lt → ⊥)
    → (goodness u < goodness v) ⊎ ((u ≡ v) × (text_cmp m n ≢ lt))
unfolding goodness
Before-by_verdict n m errored errored h = inr (refl, h)
Before-by_verdict n m errored regressed h = inl (omega arith)
Before-by_verdict n m errored pass h = inl (omega arith)
Before-by_verdict n m errored nothing_to_compare h = inl (omega arith)
Before-by_verdict n m regressed errored h = absurd (h refl)
Before-by_verdict n m regressed regressed h = inr (refl, h)
Before-by_verdict n m regressed pass h = inl (omega arith)
Before-by_verdict n m regressed nothing_to_compare h = inl (omega arith)
Before-by_verdict n m pass errored h = absurd (h refl)
Before-by_verdict n m pass regressed h = absurd (h refl)
Before-by_verdict n m pass pass h = inr (refl, h)
Before-by_verdict n m pass nothing_to_compare h = inl (omega arith)
Before-by_verdict n m nothing_to_compare errored h = absurd (h refl)
Before-by_verdict n m nothing_to_compare regressed h = absurd (h refl)
Before-by_verdict n m nothing_to_compare pass h = absurd (h refl)
Before-by_verdict n m nothing_to_compare nothing_to_compare h = inr (refl, h)

record_cmp-Before : (r s : Record) → (record_cmp s r ≡ lt → ⊥) → Before r s
unfolding record_cmp
record_cmp-Before r s h = Before-by_verdict r.name s.name r.verdict s.verdict h

IsSorted-IsWorstFirst : (rs : List Record) → IsSorted rs → IsWorstFirst rs
IsSorted-IsWorstFirst [] h = tt
IsSorted-IsWorstFirst (r ∷ []) h = tt
IsSorted-IsWorstFirst (r ∷ s ∷ rs) h =
    (record_cmp-Before r s h.0, IsSorted-IsWorstFirst (s ∷ rs) h.1)

-- The sections are a rearrangement of the records, in which every record is worse than the next, or as bad
-- and its name does not come after the other's; from worst to best the verdicts are errored, regressed,
-- pass, nothing to compare.
pub sort_records_lem :
    (rs : List Record) → Perm (sort_records rs) rs × IsWorstFirst (sort_records rs)
sort_records_lem rs =
    (sort_records-perm rs, IsSorted-IsWorstFirst (sort_records rs) (sort_records-IsSorted rs))
