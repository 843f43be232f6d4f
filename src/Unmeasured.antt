-- ===== src/Unmeasured.antt =====
-- cargo-soothfast/src/unmeasured.rs: the items that a baseline holds no numbers for. A baseline document
-- is a JSON value; loading and writing the file is left out.
pub mod Owners
pub mod Words
pub mod Written
pub mod Reading
pub mod Entries
pub mod Panics
mod Tests
use soothfast.Base.{
  Bool, true, false, not, ◌&&◌, ◌||◌, List, [], ◌∷◌, ◌++◌, map, Option, none, some, if◌then◌else◌,
  Text, codes, text_eq, starts_with, any, is_some, keep,
}
use soothfast.Base.Options.{◌>>=◌, Result, ok, err, collect}
use soothfast.Base.Parse.{is_empty}
use soothfast.Base.JsonAssign.{assign}
use soothfast.Base.Json.{
  Value, str, arr, get, index, set_key, object, strings, array, as_str, as_array, update,
  retain_items,
}

pub data Reason : Type 0 where
  identical_binaries reused_walltime shard_missing gate_failed save_failed no_parent : Reason
  no_measurement claims_skipped not_gated_on_event stored_run : Reason

abbrev pub reasons : List Reason
reasons =
    identical_binaries ∷ reused_walltime ∷ shard_missing ∷ gate_failed ∷ save_failed ∷ no_parent
    ∷ no_measurement ∷ claims_skipped ∷ not_gated_on_event ∷ stored_run ∷ []

unfoldable pub reason_text : Reason → Text
reason_text identical_binaries = codes "identical-binaries"
reason_text reused_walltime = codes "reused-walltime"
reason_text shard_missing = codes "shard-missing"
reason_text gate_failed = codes "gate-failed"
reason_text save_failed = codes "save-failed"
reason_text no_parent = codes "no-parent"
reason_text no_measurement = codes "no-measurement"
reason_text claims_skipped = codes "claims-skipped"
reason_text not_gated_on_event = codes "not-gated-on-event"
reason_text stored_run = codes "stored-run"

-- `into_iter().find(|r| r.as_str() == s)`
unfoldable pub find_reason : Text → List Reason → Option Reason
find_reason s [] = none
find_reason s (r ∷ rs) = if text_eq (reason_text r) s then some r else find_reason s rs

unfoldable pub parse_reason : Text → Option Reason
unfolding find_reason
parse_reason s = find_reason s reasons

-- Whether a measurement could have been taken on the run.
unfoldable pub measurable_here : Reason → Bool
measurable_here not_gated_on_event = false
measurable_here no_parent = false
measurable_here claims_skipped = false
measurable_here _ = true

pub record Unmeasured : Type 0 where
  pub package_name : Text
  pub reason : Reason
  pub detail : Text
  pub items : List Text
  pub metrics : List Text
  pub except_imported : Option (List Text)

abbrev set_metrics : List Text → Value → Value
set_metrics [] v = v
set_metrics (m ∷ ms) v = set_key v (codes "metrics") (strings (m ∷ ms))

abbrev set_except : Option (List Text) → Value → Value
set_except none v = v
set_except (some ps) v = set_key v (codes "except_imported") (strings ps)

unfoldable pub to_json : Unmeasured → Value
unfolding set_key
to_json u = set_except u.except_imported (
    set_metrics u.metrics (
      object (
        (codes "package", str u.package_name)
        ∷ (codes "reason", str (reason_text u.reason))
        ∷ (codes "detail", str u.detail)
        ∷ (codes "items", strings u.items)
        ∷ [])))

-- Whether an entry names an item.
unfoldable pub names : Unmeasured → Text → Bool
names u item = any (λ i. text_eq i item) u.items || (elim (u.except_imported) [
  | some prefixes ↦ not (any (λ p. starts_with item (p ++ codes "::")) prefixes)
  | none ↦ false
])

unfoldable pub covers : Unmeasured → Text → Text → Text → Bool
unfolding names
covers u item backend metric =
    names u item
    && (is_empty u.metrics
        || any (λ m. text_eq m backend || text_eq m (backend ++ (codes "." ++ metric))) u.metrics)

-- A list of texts; none for any other value.
unfoldable pub read_strings : Value → Option (List Text)
unfolding collect
read_strings v = as_array v >>= λ vs. collect (map as_str vs)

-- A key that may be missing, and one that is read when it is there.
abbrev read_metrics : Option Value → Option (List Text)
read_metrics none = some []
read_metrics (some m) = read_strings m

abbrev read_except : Option Value → Option (Option (List Text))
read_except none = some none
read_except (some p) = read_strings p >>= λ ps. some (some ps)

unfoldable pub from_json : Value → Option Unmeasured
from_json v = do
  package_name ← as_str (index v (codes "package"))
  word ← as_str (index v (codes "reason"))
  reason ← parse_reason word
  detail ← as_str (index v (codes "detail"))
  items ← read_strings (index v (codes "items"))
  metrics ← read_metrics (get (codes "metrics") v)
  except_imported ← read_except (get (codes "except_imported") v)
  some (record {
    package_name = package_name;
    reason = reason;
    detail = detail;
    items = items;
    metrics = metrics;
    except_imported = except_imported;
  })

abbrev pub is_text : Option Text → Text → Bool
is_text none t = false
is_text (some s) t = text_eq s t

unfoldable pub is_legacy : Value → Bool
is_legacy v =
    is_text (as_str (index v (codes "package"))) []
    || is_some (get (codes "prefixes") v)
    || is_some (get (codes "all_items") v)
    || is_some (get (codes "shard") v)

pub data ReadError : Type 0 where
  not_a_list : ReadError
  malformed : Value → ReadError

-- The entries that are no legacy ones, up to the first that is malformed.
unfoldable pub read_entries : List Value → Result ReadError (List Unmeasured)
read_entries [] = ok []
read_entries (v ∷ vs) =
    let rest = read_entries vs in
    if is_legacy v then rest else elim (from_json v) [
      | none ↦ err (malformed v)
      | some u ↦ elim rest [ ok us ↦ ok (u ∷ us) | err e ↦ err e ]
    ]

unfoldable pub read : Value → Result ReadError (List Unmeasured)
unfolding read_entries
read doc = elim (get (codes "unmeasured") doc) [
  | none ↦ ok []
  | some v ↦ elim (as_array v) [ none ↦ err not_a_list | some vs ↦ read_entries vs ]
]

-- Why a change of a document stops: with an error, or in a panic.
pub data Stop : Type 0 where
  refused : ReadError → Stop
  panicked : Stop

abbrev pub or_panic : Option Value → Result Stop Value
or_panic none = err panicked
or_panic (some v) = ok v

-- `append`: the entries that are there are read and written again, with the new ones behind them.
unfoldable pub append : Value → List Unmeasured → Result Stop Value
append doc entries = elim (read doc) [
  | err e ↦ err (refused e)
  | ok us ↦
      or_panic (assign doc (codes "unmeasured") (array (map to_json us ++ map to_json entries)))
]

abbrev or_blank : Option Text → Text
or_blank none = []
or_blank (some t) = t

-- Which entries `clear_entries` keeps.
abbrev pub stays : (Text → Bool) → Value → Bool
stays gone e = not (is_legacy e) && not (gone (or_blank (as_str (index e (codes "package")))))

unfoldable pub clear_entries : (Text → Bool) → Value → Value
clear_entries gone = update (codes "unmeasured") (retain_items (stays gone))

-- `clear`: of one package, or of all.
unfoldable pub clear : Option Text → Value → Value
clear none = clear_entries (λ p. true)
clear (some own) = clear_entries (λ p. text_eq own p)
