-- ===== src/Unmeasured/Tests.antt =====
-- Runs of the unmeasured entries, and each theorem about them at a concrete input.
use soothfast.Base.{
  starts_with, ◌≡◌, refl, true, not, [], ◌∷◌, ◌++◌, none, some, codes, text_eq, mem_text, keep,
}
use soothfast.Base.Options.{ok}
use soothfast.Base.Json.{index, Value, get, object, array}
use soothfast.Unmeasured.{
  read_strings, is_legacy, Unmeasured, shard_missing, gate_failed, reason_text, parse_reason,
  to_json, from_json, covers, read, clear_entries,
}
use soothfast.Unmeasured.Owners.{mark, packages}
use soothfast.Unmeasured.Words.{from_json-to_json_entry}
use soothfast.Unmeasured.Entries.{read-clear_entries, read-mark}

abbrev core_entry : Unmeasured
core_entry = record {
  package_name = codes "core";
  reason = shard_missing;
  detail = codes "shard 2/3";
  items = codes "soothfast::a" ∷ [];
  metrics = codes "walltime" ∷ [];
  except_imported = none;
}

abbrev cli_entry : Unmeasured
cli_entry = record {
  package_name = codes "cli";
  reason = gate_failed;
  detail = codes "exit 2";
  items = codes "cli::b" ∷ [];
  metrics = [];
  except_imported = some (codes "jmh" ∷ []);
}

abbrev core_doc : Value
core_doc = object ((codes "unmeasured", array (to_json core_entry ∷ [])) ∷ [])

core_doc_is_read : read core_doc ≡ ok (core_entry ∷ [])
unfolding read get is_legacy index to_json from_json parse_reason reason_text read_strings
core_doc_is_read = refl

metric_is_covered :
    covers core_entry (codes "soothfast::a") (codes "walltime") (codes "median") ≡ true
unfolding covers text_eq
metric_is_covered = refl

item_outside_prefix_is_covered : covers cli_entry (codes "other::c") (codes "x") (codes "y") ≡ true
unfolding covers text_eq starts_with
item_outside_prefix_is_covered = refl

from_json-to_json_entry_example : from_json (to_json cli_entry) ≡ some cli_entry
from_json-to_json_entry_example = from_json-to_json_entry cli_entry

read-clear_entries_example :
    read (clear_entries (λ p. text_eq (codes "cli") p) core_doc)
    ≡ ok (keep (λ (u : Unmeasured). not (text_eq (codes "cli") u.package_name)) (core_entry ∷ []))
read-clear_entries_example =
    read-clear_entries core_doc (λ p. text_eq (codes "cli") p) (core_entry ∷ []) core_doc_is_read

read-mark_example :
    (after : Value) × (mark core_doc (cli_entry ∷ []) true ≡ ok after)
    × (read after
        ≡ ok (
            keep
              (λ (u : Unmeasured). not (mem_text u.package_name (packages (cli_entry ∷ []))))
              (core_entry ∷ [])
            ++ cli_entry ∷ []))
read-mark_example =
    read-mark core_doc (core_entry ∷ []) (cli_entry ∷ []) refl core_doc_is_read (refl, tt)
