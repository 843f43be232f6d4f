-- ===== src/Baseline/Unaccounted.antt =====
-- `Saved` and `unaccounted` of cargo-soothfast/src/baseline_merge.rs: the entries for what the shards of a
-- package did not save.
use soothfast.Base.{
  join, ℕ, zero, suc, Bool, true, false, not, ◌&&◌, ◌||◌, List, [], ◌∷◌, ◌++◌, map, keep, any,
  Option, none, some, if◌then◌else◌, ◌==◌, ltb, Text, codes, text_eq, is_some,
}
use soothfast.Base.Parse.{is_empty}
use soothfast.Base.Format.{concat}
use soothfast.Base.BTreeSet.{BTreeSet, from_list}
use soothfast.Base.Json.{Value, index, as_array}
use soothfast.Unmeasured.{Unmeasured, Reason, no_measurement, shard_missing}
use soothfast.Unmeasured.Owners.{owners_key, texts, owned_by}
use soothfast.Baseline.Shard.{Shard, owns, show}

abbrev pub listed_key : Text
listed_key = codes "listed"

pub record Saved : Type 0 where
  pub doc : Value
  pub entries : List Unmeasured

abbrev some_named : Option (List Value) → Bool
some_named none = false
some_named (some ids) = not (is_empty ids)

-- `Saved::covers`
unfoldable pub covers : Saved → Text → Bool
covers saved name =
    is_some (as_array (index (index saved.doc owners_key) name))
    || (some_named (as_array (index (index saved.doc listed_key) name))
        || any (λ (e : Unmeasured). text_eq e.package_name name && not (is_empty e.items))
            saved.entries)

-- `BTreeMap<u64, Saved>`: in the order of the shards' positions.
abbrev pub Shards : Type 0
Shards = List (ℕ × Saved)

unfoldable pub get_shard : ℕ → Shards → Option Saved
get_shard i [] = none
get_shard i ((j, s) ∷ shards) = if j == i then some s else get_shard i shards

unfoldable pub insert_shard : ℕ → Saved → Shards → Shards
insert_shard i s [] = (i, s) ∷ []
insert_shard i s ((j, t) ∷ shards) =
    if ltb i j
    then (i, s) ∷ (j, t) ∷ shards
    else if i == j
    then (i, s) ∷ shards
    else (j, t) ∷ insert_shard i s shards

abbrev pub covered : Option Saved → Text → Bool
covered none name = false
covered (some saved) name = covers saved name

abbrev pub any_covers : Shards → Text → Bool
any_covers shards name = any (λ (s : ℕ × Saved). covers s.1 name) shards

-- The shards from a position on, so many of them.
unfoldable pub shards_from : ℕ → ℕ → ℕ → List Shard
shards_from count i zero = []
shards_from count i (suc n) = record { position = i; count = count } ∷ shards_from count (suc i) n

unfoldable pub missing : Text → Shards → ℕ → List Shard
missing name shards expect =
    keep (λ (s : Shard). not (covered (get_shard s.position shards) name))
      (shards_from expect 1 expect)

abbrev known_of : Text → Shards → List Text
known_of name [] = []
known_of name ((i, s) ∷ shards) =
    texts (index (index s.doc listed_key) name) ++ (owned_by s.doc name ++ known_of name shards)

abbrev or_nil : Option BTreeSet → BTreeSet
or_nil none = []
or_nil (some s) = s

-- The items of the package that any shard or the plan names.
unfoldable pub known : Text → Shards → Option BTreeSet → BTreeSet
known name shards plan = from_list (known_of name shards ++ or_nil plan)

abbrev find_entry : (Unmeasured → Bool) → List Unmeasured → Option Unmeasured
find_entry p [] = none
find_entry p (e ∷ es) = if p e then some e else find_entry p es

-- The entry of a shard's file that names no item of the package.
unfoldable pub nameless : Text → Shards → ℕ → Option Unmeasured
nameless name shards i = elim (get_shard i shards) [
  | none ↦ none
  | some saved ↦ find_entry (λ e. text_eq e.package_name name && is_empty e.items) saved.entries
]

abbrev blank_entry : Text → Reason → Text → List Text → Unmeasured
blank_entry name reason detail items = record {
  package_name = name;
  reason = reason;
  detail = detail;
  items = items;
  metrics = [];
  except_imported = none;
}

abbrev which : ℕ → List Shard → Text
which expect shards =
    if expect == 1 then codes "the gate" else codes "shard " ++ join (map show shards) (codes ", ")

abbrev reason_for : Text → Bool → Shard → Option Unmeasured → Reason × Text
reason_for name unsaved shard (some e) =
    (e.reason, concat (e.detail ∷ codes " (shard " ∷ show shard ∷ codes ")" ∷ []))
reason_for name true shard none = (
  no_measurement,
  concat (
      codes "no gate leg saved a measurement of "
      ∷ name
      ∷ codes " (shard "
      ∷ show shard
      ∷ codes "); the bench build listed these items"
      ∷ []),
)
reason_for name false shard none = (
  shard_missing,
  concat (codes "shard " ∷ show shard ∷ codes " saved no measurement of " ∷ name ∷ []),
)

module _ (as_bytes : Text → List ℕ) where
  unfoldable pub missing_entry : Text → Shards → BTreeSet → Shard → Unmeasured
  missing_entry name shards ids shard =
      let why =
        reason_for name (not (any_covers shards name)) shard
          (nameless name shards shard.position) in
      blank_entry name why.0 why.1 (keep (owns as_bytes shard) ids)

  unfoldable pub unaccounted : Text → Shards → ℕ → Option BTreeSet → List Unmeasured
  unaccounted name shards expect plan =
      let gone = missing name shards expect in
      let ids = known name shards plan in
      if is_empty gone
      then []
      else if is_empty ids
      then blank_entry name no_measurement
          (which expect gone ++ (codes " saved no measurement of " ++ name)) []
        ∷ []
      else keep (λ (u : Unmeasured). not (is_empty u.items))
          (map (missing_entry name shards ids) gone)
