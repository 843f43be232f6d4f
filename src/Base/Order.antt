-- ===== src/Base/Order.antt =====
-- `Ord for str`: lexicographic order, by code points (which is the order of the UTF-8 bytes).
use Prim.Native.Nat.{compare, Ordering}
use Prim.Native.Nat.Ordering.{lt, eq, gt}
use mathlib.Core.Path.{◌≡◌, refl}
use mathlib.Core.List.{[], ◌∷◌}
use native.Mathlib.Omega.{arith}
use soothfast.Base.Chars.{Text}

unfoldable pub text_cmp : Text → Text → Ordering
text_cmp [] [] = eq
text_cmp [] (d ∷ t) = lt
text_cmp (c ∷ s) [] = gt
text_cmp (c ∷ s) (d ∷ t) = elim (compare c d) [ lt ↦ lt | eq ↦ text_cmp s t | gt ↦ gt ]

pub text_cmp_refl : (s : Text) → text_cmp s s ≡ eq
unfolding text_cmp
text_cmp_refl [] = refl
text_cmp_refl (c ∷ s) = ground (arith, text_cmp_refl s)

pub text_cmp-eq : (s t : Text) → text_cmp s t ≡ eq → s ≡ t
unfolding text_cmp
text_cmp-eq [] [] h = refl
text_cmp-eq [] (d ∷ t) h = cc
text_cmp-eq (c ∷ s) [] h = cc
text_cmp-eq (c ∷ s) (d ∷ t) h = ground (arith, text_cmp-eq s t)

pub text_cmp-gt : (s t : Text) → text_cmp s t ≡ gt → text_cmp t s ≡ lt
unfolding text_cmp
text_cmp-gt [] [] h = cc
text_cmp-gt [] (d ∷ t) h = cc
text_cmp-gt (c ∷ s) [] h = refl
text_cmp-gt (c ∷ s) (d ∷ t) h = ground (arith, text_cmp-gt s t)

pub text_cmp_trans : (r s t : Text) → text_cmp r s ≡ lt → text_cmp s t ≡ lt → text_cmp r t ≡ lt
unfolding text_cmp
text_cmp_trans [] [] t h k = cc
text_cmp_trans [] (d ∷ s) [] h k = cc
text_cmp_trans [] (d ∷ s) (e ∷ t) h k = refl
text_cmp_trans (c ∷ r) [] t h k = cc
text_cmp_trans (c ∷ r) (d ∷ s) [] h k = cc
text_cmp_trans (c ∷ r) (d ∷ s) (e ∷ t) h k = ground (arith, text_cmp_trans r s t)

pub text_cmp_asymm : (s t : Text) → text_cmp s t ≡ lt → text_cmp t s ≡ lt → ⊥
text_cmp_asymm s t h k = ground (arith, text_cmp_trans s t s h k, text_cmp_refl s)
