-- ===== src/Baseline/Outcome.antt =====
-- What `merge_on` gives: whose items a merged baseline holds, and what it refuses.
use soothfast.Base.{
  ℕ, ◌≤◌, ◌≡◌, refl, sym, ◌∙◌, inl, inr, true, false, List, [], ◌∷◌, Option, arith, Text, codes,
  text_eq, text_eq_iff, all, map,
}
use soothfast.Base.Options.{ok, err, Result-cases}
use soothfast.Base.BTreeMap.{BTreeMap, get as map_get}
use soothfast.Base.BTreeSet.{BTreeSet}
use soothfast.Base.Json.{Value, obj, get_field, get, index, set_key, get-set_key, object}
use soothfast.Unmeasured.Owners.{owners_key}
use soothfast.Baseline.Merge.{MergeError, Merging, take_files}
use soothfast.Baseline.Merged.{item_of, lookup, holders, ok-inj, err-ok}
use soothfast.Baseline.Taken.{sound, take_files-Taken}
use soothfast.Baseline.Whole.{Ungated, start, set_owners, owner_field, close, merge_on}

index-set_key :
    (v w : Value) (k j : Text) → text_eq k j ≡ false → index (set_key v k w) j ≡ index v j
unfolding index
index-set_key v w k j h = rw (get-set_key v k j w, h, index) refl

index-set_key_here : (v w : Value) (k : Text) → index (set_key v k w) k ≡ w
unfolding index
index-set_key_here v w k = rw (get-set_key v k k w, (text_eq_iff k k).1 refl, index) refl

index-set_owners :
    (os : BTreeMap BTreeSet) (v : Value)
    → index (set_owners os v) (codes "items") ≡ index v (codes "items")
index-set_owners [] v = refl
index-set_owners (o ∷ os) v =
    index-set_key v (object (map owner_field (o ∷ os))) owners_key (codes "items")
      (unfold text_eq in refl)

module _ (as_bytes : Text → List ℕ) (now expect : ℕ) (files : List (Text × Value))
    (packages : List Text) (planned : BTreeMap BTreeSet) (not_gated : Option Ungated) where
  items-close :
      (m : Merging)
      → index (close as_bytes now m expect packages planned not_gated) (codes "items")
        ≡ obj m.all_items
  unfolding close index text_eq
  items-close m =
      index-set_owners m.owners _
      ∙ index-set_key _ _ (codes "unmeasured") (codes "items") refl
      ∙ index-set_key _ _ (codes "assertions") (codes "items") refl
      ∙ index-set_key_here _ (obj m.all_items) (codes "items")

  -- A merged baseline has an item exactly if a file has it, with that file's numbers, and no two files
  -- have the same item.
  pub lookup-merge_on :
      (id : Text) (out : Value)
      → merge_on as_bytes now files expect packages planned not_gated ≡ ok out
      → (item_of id out ≡ lookup id files) × (holders id files ≤ 1)
  unfolding merge_on get get_field map_get
  lookup-merge_on id out q = elim (Result-cases (take_files as_bytes expect start files)) [
    | inr (e, p) ↦ absurd (err-ok (rw (p, merge_on) at q))
    | inl (m, p) ↦
        let (good, found, few) = take_files-Taken as_bytes expect files start m (λ i. refl) p in
        let same = ok-inj (rw (p, merge_on) at q) in
        (rw (sym same, items-close m) (found id), omega (arith, few id))
  ]

  -- A merge with a file of the gate that is of another split, or that holds a measured item, not imported,
  -- which its shard does not own, or whose stamp or items cannot be read, is refused.
  pub sound-merge_on :
      all (sound as_bytes expect) files ≡ false
      → (e : MergeError) × (merge_on as_bytes now files expect packages planned not_gated ≡ err e)
  unfolding merge_on get_field map_get
  sound-merge_on h = elim (Result-cases (take_files as_bytes expect start files)) [
    | inr (e, p) ↦ rw (p, merge_on) (e, refl)
    | inl (m, p) ↦
        absurd (differ (sym h ∙ (take_files-Taken as_bytes expect files start m (λ i. refl) p).0))
  ]
    where
      differ : false ≡ true → ⊥
      differ p = cc
