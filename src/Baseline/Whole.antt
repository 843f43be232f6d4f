-- ===== src/Baseline/Whole.antt =====
-- The rest of `merge_on` of cargo-soothfast/src/baseline_merge.rs: the entries for what is missing, and
-- the document that comes of it.
use soothfast.Base.{
  ℕ, Bool, true, List, [], ◌∷◌, ◌++◌, map, filter_map, Option, none, some, if◌then◌else◌, Text,
  codes,
}
use soothfast.Base.Format.{concat}
use soothfast.Base.Options.{Result, ok}
use soothfast.Base.Results.{◌>>=◌}
use soothfast.Base.BTreeMap.{BTreeMap, get as map_get}
use soothfast.Base.BTreeSet.{BTreeSet, from_list}
use soothfast.Base.Json.{
  Value, uint, obj, Fields, end, index, set_key, object, strings, array, as_str, entries,
}
use soothfast.Unmeasured.{Unmeasured, to_json, not_gated_on_event}
use soothfast.Unmeasured.Owners.{owners_key}
use soothfast.Baseline.Unaccounted.{Shards, any_covers, unaccounted}
use soothfast.Baseline.Merge.{MergeError, Merging, take_files}

pub record Ungated : Type 0 where
  pub event : Text
  pub imports : List Text

abbrev pub start : Merging
start = record {
  out = object ((codes "version", uint 1) ∷ []);
  all_items = end;
  assertions = [];
  entries = [];
  shards = [];
  owners = [];
  origin = [];
}

abbrev or_covered : Option Ungated → Bool → Bool
or_covered none c = true
or_covered (some u) c = c

abbrev pub owner_field : Text × BTreeSet → Text × Value
owner_field e = (e.0, strings e.1)

-- The entry of a run on which the gate does not measure.
unfoldable pub ungated_entry : Ungated → Fields → Unmeasured
ungated_entry u items = record {
  package_name = codes "cargo";
  reason = not_gated_on_event;
  detail = concat (
      codes "the cargo gate does not measure on a "
      ∷ u.event
      ∷ codes " event; only imported items are"
      ∷ []);
  items = [];
  metrics = [];
  except_imported = some (
      from_list (
        u.imports
        ++ filter_map (λ (e : Text × Value). as_str (index e.1 (codes "imported")))
            (entries items)));
}

abbrev ungated_entries : Option Ungated → Fields → List Unmeasured
ungated_entries none items = []
ungated_entries (some u) items = ungated_entry u items ∷ []

abbrev pub set_owners : BTreeMap BTreeSet → Value → Value
set_owners [] out = out
set_owners (o ∷ os) out = set_key out owners_key (object (map owner_field (o ∷ os)))

module _ (as_bytes : Text → List ℕ) where
  -- The loop over the packages.
  unfoldable pub package_entries :
      List Text → Shards → ℕ → BTreeMap BTreeSet → Option Ungated → List Unmeasured
  package_entries [] shards expect planned not_gated = []
  package_entries (name ∷ names) shards expect planned not_gated =
      let rest = package_entries names shards expect planned not_gated in
      if or_covered not_gated (any_covers shards name)
      then unaccounted as_bytes name shards expect (map_get name planned) ++ rest
      else rest

  -- All the entries of the merged baseline.
  unfoldable pub all_entries :
      Merging → ℕ → List Text → BTreeMap BTreeSet → Option Ungated → List Unmeasured
  all_entries m expect packages planned not_gated =
      m.entries
      ++ (package_entries packages m.shards expect planned not_gated
          ++ ungated_entries not_gated m.all_items)

  unfoldable pub close : ℕ → Merging → ℕ → List Text → BTreeMap BTreeSet → Option Ungated → Value
  close now m expect packages planned not_gated = set_owners m.owners (
      set_key
        (set_key
          (set_key (set_key m.out (codes "created_unix") (uint now)) (codes "items")
            (obj m.all_items))
          (codes "assertions") (array m.assertions))
        (codes "unmeasured")
        (array (map to_json (all_entries m expect packages planned not_gated))))

  unfoldable pub merge_on :
      ℕ
      → List (Text × Value)
      → ℕ
      → List Text
      → BTreeMap BTreeSet
      → Option Ungated
      → Result MergeError Value
  merge_on now files expect packages planned not_gated =
      take_files as_bytes expect start files >>= λ m.
      ok (close now m expect packages planned not_gated)
