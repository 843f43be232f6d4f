-- ===== src/Baseline/Tests.antt =====
-- Runs of the merge, and each theorem about it at a concrete input.
use soothfast.Base.BTreeMap.{get as map_get, insert as map_insert}
use soothfast.Base.Parse.{parse_u64}
use soothfast.Base.JsonKeyed.{keyed_fields}
use soothfast.Unmeasured.{read}
use soothfast.Base.{
  split_once, ℕ, ◌≤◌, ◌≡◌, refl, not, ◌&&◌, any, List, [], ◌∷◌, none, some, Text, codes, mem_text,
  arith, text_eq,
}
use soothfast.Base.Options.{ok, err}
use soothfast.Base.Json.{
  get, Value, uint, str, obj, Fields, end, field, object, array, get_field, set_field, set_key,
  index,
}
use soothfast.Baseline.Shard.{fnv1a, fnv1a_from, parse, owns}
use soothfast.Baseline.Unaccounted.{Shards, get_shard, covered, known, unaccounted, insert_shard}
use soothfast.Baseline.Accounted.{accounts, home, accounts-unaccounted}
use soothfast.Baseline.Merge.{
  add_owners, items_of, stamp_of, is_rust, MergeError, take_files, take_file, entries_of, take_gate,
  foreign, add_items, copy_key,
}
use soothfast.Baseline.Merged.{item_of, lookup, holders}
use soothfast.Baseline.Taken.{sound}
use soothfast.Baseline.Whole.{merge_on, close, all_entries, package_entries}
use soothfast.Baseline.Outcome.{lookup-merge_on, sound-merge_on}
use soothfast.Baseline.Alone.{merge_on-unsharded}

-- Each code point is one byte, as in ASCII.
abbrev bytes : Text → List ℕ
bytes t = t

fnv1a_known_vectors :
    (fnv1a (bytes []) ≡ 14695981039346656037)
    × (fnv1a (bytes (codes "a")) ≡ 12638187200555641996)
    × (fnv1a (bytes (codes "foobar")) ≡ 9625390261332436968)
unfolding fnv1a fnv1a_from
fnv1a_known_vectors = (refl, refl, refl)

abbrev items : Fields
items = field (codes "a::b") (object ((codes "ir", uint 7) ∷ [])) end

abbrev baseline : Value
baseline = object ((codes "version", uint 1) ∷ (codes "items", obj items) ∷ [])

-- A file of the second shard of three.
abbrev second_of_three : Value
second_of_three = object ((codes "shard", str (codes "2/3")) ∷ (codes "items", object []) ∷ [])

abbrev shards : Shards
shards = (2, record { doc = second_of_three; entries = [] }) ∷ []

accounts-unaccounted_example :
    any
      (accounts (codes "pkg") (codes "a::b"))
      (unaccounted bytes (codes "pkg") shards 3 (some (codes "a::b" ∷ [])))
    ≡ (mem_text (codes "a::b") (known (codes "pkg") shards (some (codes "a::b" ∷ [])))
        && not (
            covered
              (get_shard (home bytes (codes "pkg") (codes "a::b") shards 3) shards)
              (codes "pkg")))
accounts-unaccounted_example =
    accounts-unaccounted bytes (codes "pkg") (codes "a::b") shards 3 (omega arith)
      (some (codes "a::b" ∷ []))

merge_on-unsharded_example :
    (out : Value) × (merge_on bytes 0 ((codes "f.json", baseline) ∷ []) 1 [] [] none ≡ ok out)
unfolding read get keyed_fields
merge_on-unsharded_example =
    merge_on-unsharded bytes 0 (codes "f.json") baseline [] [] none items [] refl refl refl refl

sound-merge_on_example :
    (e : MergeError) × (merge_on bytes 0 ((codes "f.json", second_of_three) ∷ []) 1 [] [] none
      ≡ err e)
unfolding sound is_rust get stamp_of parse split_once parse_u64 items_of
sound-merge_on_example =
    sound-merge_on bytes 0 1 ((codes "f.json", second_of_three) ∷ []) [] [] none refl

abbrev merged : Value
merged = object (
    (codes "version", uint 1)
    ∷ (codes "created_unix", uint 0)
    ∷ (codes "items", obj items)
    ∷ (codes "assertions", array [])
    ∷ (codes "unmeasured", array [])
    ∷ [])

a_file_merges : merge_on bytes 0 ((codes "f.json", baseline) ∷ []) 1 [] [] none ≡ ok merged
unfolding merge_on take_files take_file entries_of read get items_of is_rust index take_gate
    stamp_of get_shard foreign owns fnv1a fnv1a_from add_items map_get map_insert get_field
    set_field set_key text_eq copy_key insert_shard close all_entries package_entries add_owners
a_file_merges = refl

lookup-merge_on_example :
    (item_of (codes "a::b") merged ≡ lookup (codes "a::b") ((codes "f.json", baseline) ∷ []))
    × (holders (codes "a::b") ((codes "f.json", baseline) ∷ []) ≤ 1)
lookup-merge_on_example =
    lookup-merge_on bytes 0 1 ((codes "f.json", baseline) ∷ []) [] [] none (codes "a::b") merged
      a_file_merges
