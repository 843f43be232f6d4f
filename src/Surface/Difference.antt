-- ===== src/Surface/Difference.antt =====
-- What a surface diff holds.
use soothfast.Base.{
  ◌≡◌, refl, ◌∙◌, Bool, false, not, ◌&&◌, ◌||◌, ◌==◌, codes, List, [], ◌∷◌, ◌++◌, all, none, some,
  arith, is_some, Text, text_eq, Bool-cases, Option-cases, inl, inr,
}
use soothfast.Base.Parse.{is_empty}
use soothfast.Base.BTreeMap.{BTreeMap, get, keys}
use soothfast.Surface.{
  ItemInfo, Surface, SurfaceDiff, unchanged, edited, take_item, take_items, missing_from,
  no_changes, compare,
}

-- An item that was there before, and is a module or has the fingerprint that it had.
abbrev pub is_same : BTreeMap ItemInfo → Text × ItemInfo → Bool
is_same old (path, info) = elim (get path old) [
  | none ↦ false
  | some prev ↦ text_eq info.kind (codes "module") || prev.fingerprint == info.fingerprint
]

abbrev idle : SurfaceDiff → Bool
idle diff = is_empty diff.added && is_empty diff.changed

is_empty-snoc {ℓ} : {A : Type ℓ} (xs : List A) (x : A) → is_empty (xs ++ x ∷ []) ≡ false
is_empty-snoc [] x = refl
is_empty-snoc (y ∷ xs) x = refl

idle-take_item :
    (old : BTreeMap ItemInfo) (diff : SurfaceDiff) (path : Text) (info : ItemInfo)
    → idle (take_item old diff (path, info)) ≡ (idle diff && is_same old (path, info))
unfolding take_item
idle-take_item old diff path info = elim (Option-cases (get path old)) [
  | inl e ↦ rw (e, take_item, is_same) (ground (arith, is_empty-snoc diff.added path))
  | inr (prev, e) ↦
      let change : Text × Bool = (path, not (text_eq prev.signature info.signature)) in
      elim (Bool-cases (edited info prev)) [
        | inl f ↦ rw (e, f, take_item, is_same) (ground (arith, is_empty-snoc diff.changed change))
        | inr f ↦ rw (e, f, take_item, is_same) (ground arith)
      ]
]

idle-take_items :
    (old : BTreeMap ItemInfo) (diff : SurfaceDiff) (items : BTreeMap ItemInfo)
    → idle (take_items old diff items) ≡ (idle diff && all (is_same old) items)
unfolding take_items
idle-take_items old diff [] = ground arith
idle-take_items old diff ((path, info) ∷ items) =
    idle-take_items old (take_item old diff (path, info)) items
    ∙ ground (arith, idle-take_item old diff path info)

missing_from-empty :
    (new : BTreeMap ItemInfo) (paths : List Text)
    → is_empty (missing_from new paths) ≡ all (λ p. is_some (get p new)) paths
unfolding missing_from
missing_from-empty new [] = refl
missing_from-empty new (p ∷ paths) = ground (arith, missing_from-empty new paths)

-- A diff says that nothing changed exactly when every item of the new surface was in the old one and is a
-- module or has the fingerprint that it had, and every path of the old surface is still there.
pub unchanged-compare :
    (old new : Surface)
    → unchanged (compare old new)
      ≡ (all (is_same old.items) new.items && all (λ p. is_some (get p new.items)) (keys old.items))
unfolding unchanged compare
unchanged-compare old new = ground (
  arith,
  idle-take_items old.items no_changes new.items,
  missing_from-empty new.items (keys old.items),
)
