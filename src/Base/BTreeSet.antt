-- ===== src/Base/BTreeSet.antt =====
-- `BTreeSet<String>`: a list in the order of its members.
use Prim.Native.Nat.Ordering.{lt, eq, gt}
use mathlib.Core.Path.{◌≡◌, refl}
use mathlib.Core.Bool.{◌||◌}
use mathlib.Core.List.{List, [], ◌∷◌}
use native.Mathlib.Omega.{arith}
use soothfast.Base.Chars.{Text, text_eq, mem_text}
use soothfast.Base.Order.{text_cmp, text_cmp-eq}

abbrev pub BTreeSet : Type 0
BTreeSet = List Text

unfoldable pub insert : Text → BTreeSet → BTreeSet
insert k [] = k ∷ []
insert k (j ∷ s) = elim (text_cmp k j) [ lt ↦ k ∷ j ∷ s | eq ↦ j ∷ s | gt ↦ j ∷ insert k s ]

unfoldable pub from_list : List Text → BTreeSet
unfolding insert
from_list [] = []
from_list (t ∷ ts) = insert t (from_list ts)

pub mem-insert :
    (j k : Text) (s : BTreeSet) → mem_text j (insert k s) ≡ (text_eq k j || mem_text j s)
unfolding mem_text insert
mem-insert j k [] = refl
mem-insert j k (i ∷ s) = ground (arith, mem-insert j k s, text_cmp-eq k i)

pub mem-from_list : (j : Text) (ts : List Text) → mem_text j (from_list ts) ≡ mem_text j ts
unfolding from_list mem_text
mem-from_list j [] = refl
mem-from_list j (t ∷ ts) = ground (arith, mem-insert j t (from_list ts), mem-from_list j ts)
