-- ===== src/Baseline/Merge.antt =====
-- `merge_on` of cargo-soothfast/src/baseline_merge.rs. An error is the file's label with what is wrong, in
-- place of the message that the code writes of it.
use soothfast.Base.{
  ℕ, Bool, true, false, not, ◌&&◌, ◌||◌, List, [], ◌∷◌, ◌++◌, any, Option, none, some,
  if◌then◌else◌, ◌==◌, Text, codes, is_some,
}
use soothfast.Base.Parse.{is_empty}
use soothfast.Base.Options.{Result, ok, err}
use soothfast.Base.Results.{◌>>=◌}
use soothfast.Base.BTreeMap.{BTreeMap, get as map_get, insert as map_insert}
use soothfast.Base.BTreeSet.{BTreeSet, insert}
use soothfast.Base.Json.{
  Value, bool, obj, Fields, end, get, index, set_field, set_key, as_str, as_array, as_object,
  entries,
}
use soothfast.Base.JsonEq.{value_eq}
use soothfast.Unmeasured.{Unmeasured, ReadError, read}
use soothfast.Unmeasured.Owners.{owners_key, texts}
use soothfast.Baseline.Shard.{Shard, parse, owns}
use soothfast.Baseline.Unaccounted.{Shards, get_shard, insert_shard}

abbrev pub shard_key : Text
shard_key = codes "shard"

-- What is wrong with a file that cannot be trusted.
pub data Corrupt : Type 0 where
  unreadable : ReadError → Corrupt
  items_no_object : Corrupt
  bad_stamp : Value → Corrupt
  second_file : Shard → Corrupt
  not_owned : Shard → Text → Corrupt
  twice : Text → Text → Corrupt

pub data MergeError : Type 0 where
  corrupt : Text → Corrupt → MergeError
  miscounted : Text → Shard → ℕ → MergeError

abbrev pub is_imported : Value → Bool
is_imported v = is_some (as_str (index v (codes "imported")))

abbrev measures : Option Value → Bool
measures (some (obj fs)) = any (λ (e : Text × Value). not (is_imported e.1)) (entries fs)
measures v = false

-- `imported` marks an import gate's file.
unfoldable pub is_rust : Value → Bool
is_rust doc =
    not (is_some (get (codes "imported") doc))
    && (is_some (get shard_key doc)
        || (is_some (get (codes "unmeasured") doc)
            || (is_some (get owners_key doc) || measures (get (codes "items") doc))))

pub record Merging : Type 0 where
  pub out : Value
  pub all_items : Fields
  pub assertions : List Value
  pub entries : List Unmeasured
  pub shards : Shards
  pub owners : BTreeMap BTreeSet
  pub origin : BTreeMap Text

unfoldable pub entries_of : Text → Value → Result MergeError (List Unmeasured)
entries_of label doc = elim (read doc) [
  | ok us ↦ ok us
  | err e ↦ err (corrupt label (unreadable e))
]

abbrev pub fields_or : Text → Option Value → Result MergeError Fields
fields_or label none = ok end
fields_or label (some (obj fs)) = ok fs
fields_or label (some v) = err (corrupt label items_no_object)

unfoldable pub items_of : Text → Value → Result MergeError Fields
items_of label doc = fields_or label (get (codes "items") doc)

abbrev pub stamped : Text → Value → Option Shard → Result MergeError Shard
stamped label v none = err (corrupt label (bad_stamp v))
stamped label v (some shard) = ok shard

abbrev pub parsed : Option Text → Option Shard
parsed none = none
parsed (some s) = parse s

unfoldable pub stamp_of : Text → Value → Result MergeError Shard
stamp_of label doc = elim (get shard_key doc) [
  | none ↦ ok (record { position = 1; count = 1 })
  | some v ↦ stamped label v (parsed (as_str v))
]

-- A setting of the first file that has one.
unfoldable pub copy_key : Value → Value → Text → Value
copy_key doc out key = elim (get key out) [
  | some v ↦ out
  | none ↦ elim (get key doc) [ none ↦ out | some v ↦ set_key out key v ]
]

-- One round of the loop over a file's assertions: `same`, and what takes the place of what.
abbrev idless : Value → Bool
idless a = elim (as_str (index a (codes "id"))) [ none ↦ true | some t ↦ is_empty t ]

abbrev same_claim : Value → Value → Bool
same_claim a b =
    (idless a && idless b)
    && (value_eq (index b (codes "kind")) (index a (codes "kind"))
        && value_eq (index b (codes "detail")) (index a (codes "detail")))

abbrev holds : Value → Bool
holds a = value_eq (index a (codes "ok")) (bool true)

unfoldable pub push_assertion : Value → List Value → List Value
push_assertion a [] = a ∷ []
push_assertion a (b ∷ bs) =
    let rest = push_assertion a bs in
    if same_claim a b then (if holds b && not (holds a) then a else b) ∷ bs else b ∷ rest

abbrev push_assertions : List Value → List Value → List Value
push_assertions bs [] = bs
push_assertions bs (a ∷ as') = push_assertions (push_assertion a bs) as'

abbrev pub or_nil {ℓ} : {A : Type ℓ} → Option (List A) → List A
or_nil none = []
or_nil (some xs) = xs

-- The loop over the items that a package owns, and over the packages.
unfoldable pub add_owned : Text → List Text → BTreeMap BTreeSet → BTreeMap BTreeSet
add_owned name [] owners = owners
add_owned name (id ∷ ids) owners =
    add_owned name ids (map_insert name (insert id (or_nil (map_get name owners))) owners)

unfoldable pub add_owners : List (Text × Value) → BTreeMap BTreeSet → BTreeMap BTreeSet
add_owners [] owners = owners
add_owners ((name, ids) ∷ rest) owners = add_owners rest (add_owned name (texts ids) owners)

-- The loop over the items.
unfoldable pub add_items : Text → List (Text × Value) → Merging → Result MergeError Merging
add_items label [] m = ok m
add_items label ((id, v) ∷ es) m =
    let rest = add_items label es (record m {
      all_items = set_field id v m.all_items;
      origin = map_insert id label m.origin;
    }) in
    elim (map_get id m.origin) [ some first ↦ err (corrupt label (twice id first)) | none ↦ rest ]

abbrev pub find_id : (Text × Value → Bool) → List (Text × Value) → Option Text
find_id p [] = none
find_id p (e ∷ es) = if p e then some e.0 else find_id p es

module _ (as_bytes : Text → List ℕ) where
  -- The item of a gate's file that its shard does not own.
  unfoldable pub foreign : Shard → List (Text × Value) → Option Text
  foreign shard = find_id (λ e. not (is_imported e.1) && not (owns as_bytes shard e.0))

  -- The part for a gate's file.
  unfoldable pub take_gate :
      Text → Value → ℕ → List Unmeasured → Fields → Merging → Result MergeError Merging
  take_gate label doc expect file_entries file_items m = stamp_of label doc >>= λ shard.
      if not (shard.count == expect)
      then err (miscounted label shard expect)
      else if is_some (get_shard shard.position m.shards)
      then err (corrupt label (second_file shard))
      else elim (foreign shard (entries file_items)) [
        | some id ↦ err (corrupt label (not_owned shard id))
        | none ↦ ok (record m {
          shards =
              insert_shard shard.position (record { doc = doc; entries = file_entries }) m.shards;
          out = copy_key doc (copy_key doc m.out (codes "noise_pct")) (codes "build");
        })
      ]

  -- What is left of a round once the items are in.
  abbrev pub close_file : Value → List Unmeasured → Merging → Merging
  close_file doc file_entries m = record m {
    assertions = push_assertions m.assertions (or_nil (as_array (index doc (codes "assertions"))));
    owners = add_owners (or_nil (as_object (index doc owners_key))) m.owners;
    entries = m.entries ++ file_entries;
  }

  -- One round of the loop over the files.
  unfoldable pub take_file : ℕ → Merging → Text × Value → Result MergeError Merging
  take_file expect m (label, doc) = do
    file_entries ← entries_of label doc
    file_items ← items_of label doc
    taken ← if is_rust doc then take_gate label doc expect file_entries file_items m else ok m
    added ← add_items label (entries file_items) taken
    ok (close_file doc file_entries added)

  unfoldable pub take_files : ℕ → Merging → List (Text × Value) → Result MergeError Merging
  take_files expect m [] = ok m
  take_files expect m (file ∷ files) = take_file expect m file >>= λ m. take_files expect m files
