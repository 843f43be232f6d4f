-- ===== src/Surface.antt =====
-- soothfast-docs/src/diff.rs: what changed between the public surfaces of two builds, with the records of
-- soothfast-docs/src/surface.rs that it reads.
pub mod Difference
mod Tests
use soothfast.Base.{
  ℕ, Bool, true, false, not, ◌&&◌, List, [], ◌∷◌, ◌++◌, map, keep, Option, none, some,
  if◌then◌else◌, ◌==◌, is_some, Text, codes, text_eq,
}
use soothfast.Base.Parse.{is_empty}
use soothfast.Base.Format.{concat}
use soothfast.Base.BTreeMap.{BTreeMap, get, keys}

pub record ItemInfo : Type 0 where
  pub kind : Text
  pub fingerprint : ℕ
  pub signature : Text
  pub has_docs : Bool

pub record Surface : Type 0 where
  pub items : BTreeMap ItemInfo
  pub members : BTreeMap ItemInfo

pub record SurfaceDiff : Type 0 where
  pub added : List Text
  pub removed : List Text
  pub changed : List (Text × Bool)

unfoldable pub unchanged : SurfaceDiff → Bool
unchanged diff = is_empty diff.added && is_empty diff.removed && is_empty diff.changed

-- A module's span is its whole file, so no edit of it counts.
abbrev pub edited : ItemInfo → ItemInfo → Bool
edited info prev =
    not (text_eq info.kind (codes "module")) && not (prev.fingerprint == info.fingerprint)

-- One round of the loop over the new items.
unfoldable pub take_item : BTreeMap ItemInfo → SurfaceDiff → Text × ItemInfo → SurfaceDiff
take_item old diff (path, info) = elim (get path old) [
  | none ↦ record diff { added = diff.added ++ path ∷ [] }
  | some prev ↦
      if edited info prev
      then record diff {
        changed = diff.changed ++ (path, not (text_eq prev.signature info.signature)) ∷ [];
      }
      else diff
]

unfoldable pub take_items : BTreeMap ItemInfo → SurfaceDiff → BTreeMap ItemInfo → SurfaceDiff
take_items old diff [] = diff
take_items old diff (item ∷ items) = take_items old (take_item old diff item) items

-- The loop over the old items' paths.
unfoldable pub missing_from : BTreeMap ItemInfo → List Text → List Text
missing_from new = keep λ path. not (is_some (get path new))

abbrev pub no_changes : SurfaceDiff
no_changes = record { added = []; removed = []; changed = [] }

unfoldable pub compare : Surface → Surface → SurfaceDiff
compare old new = record (take_items old.items no_changes new.items) {
  removed = missing_from new.items (keys old.items);
}

abbrev change_line : Text × Bool → Text
change_line (p, sig) =
    codes "CHANGED  "
    ++ (p ++ (codes " (" ++ ((if sig then codes "signature" else codes "body") ++ codes ")\n")))

unfoldable pub render : SurfaceDiff → Text
render diff =
    if unchanged diff
    then codes "surface: no public API changes\n"
    else concat (
        map (λ p. codes "ADDED    " ++ (p ++ codes "\n")) diff.added
        ++ (map (λ p. codes "REMOVED  " ++ (p ++ codes "\n")) diff.removed
            ++ map change_line diff.changed))
