-- ===== src/Surface/Tests.antt =====
-- Runs of the surface diff, and its theorem at a concrete input.
use soothfast.Base.Format.{concat}
use soothfast.Base.{text_eq, ℕ, ◌≡◌, refl, true, ◌&&◌, [], ◌∷◌, all, is_some, Text, codes}
use soothfast.Base.BTreeMap.{get, keys}
use soothfast.Surface.{
  missing_from, take_item, take_items, ItemInfo, Surface, compare, unchanged, render,
}
use soothfast.Surface.Difference.{is_same, unchanged-compare}

abbrev info : ℕ → Text → ItemInfo
info n s = record { kind = codes "function"; fingerprint = n; signature = s; has_docs = true }

abbrev before : Surface
before = record {
  items = (codes "a", info 1 (codes "fn a()")) ∷ (codes "b", info 2 (codes "fn b()")) ∷ [];
  members = [];
}

abbrev after : Surface
after = record {
  items = (codes "a", info 3 (codes "fn a()")) ∷ (codes "c", info 4 (codes "fn c()")) ∷ [];
  members = [];
}

three_lines : render (compare before after) ≡ codes "ADDED    c\nREMOVED  b\nCHANGED  a (body)\n"
unfolding render compare unchanged take_items take_item get text_eq concat missing_from
three_lines = refl

unchanged-compare_example : unchanged (compare before after) ≡ (
    all (is_same before.items) after.items
    && all (λ p. is_some (get p after.items)) (keys before.items))
unchanged-compare_example = unchanged-compare before after
