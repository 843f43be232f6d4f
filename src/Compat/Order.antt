-- ===== src/Compat/Order.antt =====
-- The order in which a diff is reported.
use Prim.Native.Nat.{Ordering}
use Prim.Native.Nat.Ordering.{lt, eq, gt}
use mathlib.Core.List.{Perm}
use mathlib.Core.List.Perm
use soothfast.Base.{◌≡◌, refl, ap, Bool, false, not, ◌||◌, List, [], ◌∷◌, any, arith}
use soothfast.Base.Order.{text_cmp_asymm, text_cmp-eq, text_cmp_refl}
use soothfast.Compat.{Change, is_breaking, change_cmp, insert_change, sort, is_compatible}

-- No change stands behind one that sorts after it.
abbrev pub IsReported : List Change → Type 0
IsReported [] = Unit
IsReported (c ∷ []) = Unit
IsReported (c ∷ d ∷ cs) = (change_cmp d c ≡ lt → ⊥) × IsReported (d ∷ cs)

change_cmp_asymm : (a b : Change) → change_cmp a b ≡ lt → change_cmp b a ≡ lt → ⊥
unfolding change_cmp
change_cmp_asymm a b h k = ground (
  arith,
  text_cmp_asymm a.place b.place,
  text_cmp_asymm a.detail b.detail,
  text_cmp-eq a.place b.place,
  text_cmp-eq b.place a.place,
  text_cmp_refl a.place,
)

insert_change-IsReported :
    (c : Change) (cs : List Change) → IsReported cs → IsReported (insert_change c cs)
unfolding insert_change
insert_change-IsReported c [] h = tt
insert_change-IsReported c (d ∷ []) h = ground (arith, change_cmp_asymm d c)
insert_change-IsReported c (d ∷ e ∷ cs) h =
    ground (arith, change_cmp_asymm d c, insert_change-IsReported c (e ∷ cs) h.1)

insert_change-perm : (c : Change) (cs : List Change) → Perm (insert_change c cs) (c ∷ cs)
unfolding insert_change
insert_change-perm c [] = Perm.refl _
insert_change-perm c (d ∷ cs) = placed (change_cmp d c) (insert_change-perm c cs)
  where
    placed :
        (o : Ordering)
        → Perm (insert_change c cs) (c ∷ cs)
        → Perm (elim o [ lt ↦ d ∷ insert_change c cs | _ ↦ c ∷ d ∷ cs ]) (c ∷ d ∷ cs)
    placed gt p = Perm.refl _
    placed eq p = Perm.refl _
    placed lt p = Perm.trans (Perm.cons d p) (Perm.swap c d cs)

sort-IsReported : (cs : List Change) → IsReported (sort cs)
unfolding sort
sort-IsReported [] = tt
sort-IsReported (c ∷ cs) = insert_change-IsReported c (sort cs) (sort-IsReported cs)

sort-perm : (cs : List Change) → Perm (sort cs) cs
unfolding sort
sort-perm [] = Perm.refl _
sort-perm (c ∷ cs) = Perm.trans (insert_change-perm c (sort cs)) (Perm.cons c (sort-perm cs))

-- A breaking change comes first, if there is one.
abbrev pub first_breaking : List Change → Bool
first_breaking [] = false
first_breaking (c ∷ cs) = is_breaking c.severity

first_breaking-any :
    (cs : List Change)
    → IsReported cs
    → first_breaking cs ≡ any (λ (c : Change). is_breaking c.severity) cs
unfolding change_cmp
first_breaking-any [] h = refl
first_breaking-any (c ∷ []) h = ground arith
first_breaking-any (c ∷ d ∷ cs) h = ground (arith, first_breaking-any (d ∷ cs) h.1, h.0)

any-insert_change :
    (c : Change) (cs : List Change)
    → any (λ (d : Change). is_breaking d.severity) (insert_change c cs)
      ≡ (is_breaking c.severity || any (λ (d : Change). is_breaking d.severity) cs)
unfolding insert_change
any-insert_change c [] = refl
any-insert_change c (d ∷ cs) = ground (arith, any-insert_change c cs)

any-sort :
    (cs : List Change)
    → any (λ (d : Change). is_breaking d.severity) (sort cs)
      ≡ any (λ (d : Change). is_breaking d.severity) cs
unfolding sort
any-sort [] = refl
any-sort (c ∷ cs) = ground (arith, any-insert_change c (sort cs), any-sort cs)

pub is_compatible-sort : (cs : List Change) → is_compatible (sort cs) ≡ is_compatible cs
unfolding is_compatible
is_compatible-sort cs = ap not (any-sort cs)

-- The report holds the changes of the diff, each as often, in order; and it opens with a breaking change
-- exactly when the diff is not compatible.
pub sort_lem :
    (cs : List Change)
    → Perm (sort cs) cs × IsReported (sort cs) × (first_breaking (sort cs) ≡ not (is_compatible cs))
unfolding is_compatible
sort_lem cs = (
  sort-perm cs,
  sort-IsReported cs,
  ground (arith, first_breaking-any (sort cs) (sort-IsReported cs), any-sort cs),
)
