-- ===== src/Base/BTreeMap.antt =====
-- `BTreeMap<String, V>` as an association list in the order of its keys, and `BTreeSet<String>`.
use Prim.Native.Nat.Ordering.{lt, eq, gt}
use mathlib.Core.Path.{◌≡◌, refl}
use mathlib.Core.List.{List, [], ◌∷◌, map}
use mathlib.Core.Option.{Option, none, some}
use native.Mathlib.Omega.{arith}
use soothfast.Base.Chars.{Text, text_eq, text_eq_iff}
use soothfast.Base.Tests.{if◌then◌else◌}
use soothfast.Base.Order.{text_cmp, text_cmp_refl, text_cmp-eq, text_cmp-gt, text_cmp_trans}

abbrev pub BTreeMap {ℓ} : Type ℓ → Type ℓ
BTreeMap V = List (Text × V)

module _ {ℓ} {V : Type ℓ} where
  unfoldable pub get : Text → BTreeMap V → Option V
  get k [] = none
  get k ((j, v) ∷ m) = if text_eq j k then some v else get k m

  -- A key that is present gets the new value, any other is put in its place in the order.
  unfoldable pub insert : Text → V → BTreeMap V → BTreeMap V
  insert k v [] = (k, v) ∷ []
  insert k v ((j, w) ∷ m) = elim (text_cmp k j) [
    | lt ↦ (k, v) ∷ (j, w) ∷ m
    | eq ↦ (k, v) ∷ m
    | gt ↦ (j, w) ∷ insert k v m
  ]

  -- `collect` of entries: of two with one key, the later stands.
  unfoldable pub extend : BTreeMap V → List (Text × V) → BTreeMap V
  extend m [] = m
  extend m ((k, v) ∷ es) = extend (insert k v m) es

  abbrev pub keys : BTreeMap V → List Text
  keys = map λ (e : Text × V). e.0

  abbrev pub values : BTreeMap V → List V
  values = map λ (e : Text × V). e.1

  pub get-insert :
      (k j : Text) (v : V) (m : BTreeMap V)
      → get j (insert k v m) ≡ (if text_eq k j then some v else get j m)
  unfolding get insert
  get-insert k j v [] = refl
  get-insert k j v ((i, w) ∷ m) = ground (
    arith,
    get-insert k j v m,
    text_cmp-eq k i,
    text_cmp_refl k,
    text_eq_iff k j,
    text_eq_iff i j,
  )

  -- The keys stand in strictly ascending order, so each is there once.
  abbrev pub Above : Text → BTreeMap V → Type 0
  Above k [] = Unit
  Above k ((j, v) ∷ m) = (text_cmp k j ≡ lt) × Above k m

  abbrev pub IsOrdered : BTreeMap V → Type 0
  IsOrdered [] = Unit
  IsOrdered ((k, v) ∷ m) = Above k m × IsOrdered m

  Above-trans : (i k : Text) (m : BTreeMap V) → text_cmp i k ≡ lt → Above k m → Above i m
  Above-trans i k [] h a = tt
  Above-trans i k ((j, v) ∷ m) h a = (text_cmp_trans i k j h a.0, Above-trans i k m h a.1)

  Above-insert :
      (i k : Text) (v : V) (m : BTreeMap V) → text_cmp i k ≡ lt → Above i m → Above i (insert k v m)
  unfolding insert
  Above-insert i k v [] h a = (h, tt)
  Above-insert i k v ((j, w) ∷ m) h a = ground (arith, Above-insert i k v m)

  pub insert-IsOrdered :
      (k : Text) (v : V) (m : BTreeMap V) → IsOrdered m → IsOrdered (insert k v m)
  unfolding insert
  insert-IsOrdered k v [] o = (tt, tt)
  insert-IsOrdered k v ((j, w) ∷ m) o = ground (
    arith,
    insert-IsOrdered k v m,
    Above-trans k j m,
    Above-insert j k v m,
    text_cmp-gt k j,
    text_cmp-eq k j,
  )
