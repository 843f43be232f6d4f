-- ===== src/Baseline/Alone.antt =====
-- A baseline that no gate was split for can always be merged alone.
use soothfast.Base.{
  ℕ, ◌%◌, ◌≡◌, refl, inl, inr, true, false, not, ◌&&◌, List, [], ◌∷◌, Option, none, some, arith,
  Text, codes, text_eq, text_eq_iff, is_some, Bool-cases, &&_iff,
}
use soothfast.Base.Options.{ok}
use soothfast.Base.BTreeMap.{BTreeMap, get as map_get, get-insert}
use soothfast.Base.BTreeSet.{BTreeSet}
use soothfast.Base.Json.{Value, obj, Fields, end, field, get_field, get, entries}
use soothfast.Base.JsonKeyed.{keyed, keyed_fields, get_field-here}
use soothfast.Unmeasured.{Unmeasured, read}
use soothfast.Baseline.Shard.{owns, fnv1a}
use soothfast.Baseline.Unaccounted.{get_shard, insert_shard}
use soothfast.Baseline.Merge.{
  Merging, shard_key, entries_of, items_of, is_rust, stamp_of, foreign, add_items, copy_key,
  take_gate, take_file, take_files,
}
use soothfast.Baseline.Merged.{with_item}
use soothfast.Baseline.Whole.{Ungated, start, merge_on}

-- No item of the file came from another.
abbrev Fresh : Fields → Merging → Type 0
Fresh fs m = (k : Text) (v : Value) → get_field k fs ≡ some v → map_get k m.origin ≡ none

Fresh-with_item :
    (label k : Text) (v : Value) (fs : Fields) (m : Merging)
    → not (is_some (get_field k fs)) ≡ true
    → Fresh (field k v fs) m
    → Fresh fs (with_item label k v m)
unfolding get_field
Fresh-with_item label k v fs m distinct f j w g = elim (Bool-cases (text_eq k j)) [
  | inl t ↦ let p : k ≡ j = (text_eq_iff k j).0 t in absurd (filled (rw (p, g) at distinct))
  | inr t ↦ rw (get-insert k j label m.origin, t) (f j w (rw t g))
]
  where
    filled : false ≡ true → ⊥
    filled q = cc

add_items-Fresh :
    (label : Text) (fs : Fields) (m : Merging)
    → keyed_fields fs ≡ true
    → Fresh fs m
    → (after : Merging) × (add_items label (entries fs) m ≡ ok after)
unfolding add_items keyed get_field
add_items-Fresh label end m h f = (m, refl)
add_items-Fresh label (field k v fs) m h f =
    let (distinct, both) =
      (&&_iff (not (is_some (get_field k fs))) (keyed v && keyed_fields fs)).0 h in
    let (after, e) =
      add_items-Fresh label fs (with_item label k v m)
        ((&&_iff (keyed v) (keyed_fields fs)).0 both).1
        (Fresh-with_item label k v fs m distinct f) in
    rw (f k v (get_field-here k v fs), add_items) (after, e)

-- The one shard there is owns everything.
foreign-one :
    (as_bytes : Text → List ℕ) (es : List (Text × Value))
    → foreign as_bytes (record { position = 1; count = 1 }) es ≡ none
unfolding foreign owns
foreign-one as_bytes [] = refl
foreign-one as_bytes ((id, v) ∷ es) =
    ground (arith, foreign-one as_bytes es, mod_one (fnv1a (as_bytes id)))
  where
    mod_one : (n : ℕ) → n % 1 ≡ 0
    mod_one n = omega arith

module _ (as_bytes : Text → List ℕ) (now : ℕ) (label : Text) (doc : Value) (packages : List Text)
    (planned : BTreeMap BTreeSet) (not_gated : Option Ungated) (fs : Fields)
    (us : List Unmeasured) where
  -- When the gate was not split, the list of one baseline alone is merged, and nothing refuses it: one with no
  -- shard's stamp, whose items are an object without a key twice and whose entries can be read.
  pub merge_on-unsharded :
      read doc ≡ ok us
      → get (codes "items") doc ≡ some (obj fs)
      → get shard_key doc ≡ none
      → keyed_fields fs ≡ true
      → (out : Value) × (merge_on as_bytes now ((label, doc) ∷ []) 1 packages planned not_gated
          ≡ ok out)
  unfolding merge_on take_files take_file entries_of items_of stamp_of take_gate get_shard map_get
  merge_on-unsharded r i s h = elim (Bool-cases (is_rust doc)) [
    | inl e ↦
        let (after, a) = add_items-Fresh label fs taken h (λ k v g. refl) in
        rw
          (
            r,
            i,
            e,
            s,
            foreign-one as_bytes (entries fs),
            a,
            merge_on,
            take_files,
            take_file,
            entries_of,
            items_of,
            take_gate,
            stamp_of,
          )
          (_, refl)
    | inr e ↦
        let (after, a) = add_items-Fresh label fs start h (λ k v g. refl) in
        rw (r, i, e, a, merge_on, take_files, take_file, entries_of, items_of) (_, refl)
  ]
    where
      taken : Merging
      taken = record start {
        shards = insert_shard 1 (record { doc = doc; entries = us }) [];
        out = copy_key doc (copy_key doc start.out (codes "noise_pct")) (codes "build");
      }
