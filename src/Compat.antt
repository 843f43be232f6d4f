-- ===== src/Compat.antt =====
-- soothfast-spec/src/compat.rs: which changes of a schema break a consumer. The changes and
-- their order, the enumerated values, the named entries and references stand here, the walk over two
-- schemas in Walk and Compare. The text of a JSON value that is no string is serde_json's, a parameter.
pub mod Values
pub mod Order
pub mod Walk
pub mod Size
pub mod Pairs
pub mod Ends
pub mod Compare
pub mod Same
pub mod Unchanged
pub mod Breaks
pub mod Caught
mod Tests
use Prim.Native.Nat.{Ordering}
use soothfast.Base.{
  Bool, true, false, not, ◌&&◌, ◌||◌, List, [], ◌∷◌, ◌++◌, map, Option, none, some, if◌then◌else◌,
  Text, codes, mem_text, strip_prefix, any, keep, filter_map, drop,
}
use soothfast.Base.Order.{text_cmp}
use soothfast.Base.Parse.{is_empty, split}
use soothfast.Base.Format.{replace}
use soothfast.Base.BTreeMap.{BTreeMap, get as map_get, keys}
use soothfast.Base.BTreeSet.{BTreeSet, insert, from_list}
use soothfast.Base.Json.{Value, null, str, get, index, as_str, as_array}

pub data Severity : Type 0 where
  additive breaking : Severity

pub record Change : Type 0 where
  pub severity : Severity
  pub place : Text
  pub detail : Text

-- `Change::new`
abbrev pub change : Severity → Text → Text → Change
change severity place detail = record { severity = severity; place = place; detail = detail }

abbrev pub is_breaking : Severity → Bool
is_breaking additive = false
is_breaking breaking = true

unfoldable pub is_compatible : List Change → Bool
is_compatible changes = not (any (λ (c : Change). is_breaking c.severity) changes)

abbrev severity_cmp : Severity → Severity → Ordering
severity_cmp additive additive = Ordering.eq
severity_cmp additive breaking = Ordering.lt
severity_cmp breaking additive = Ordering.gt
severity_cmp breaking breaking = Ordering.eq

-- `then_with`
abbrev then_with : Ordering → Ordering → Ordering
then_with Ordering.eq o = o
then_with Ordering.lt o = Ordering.lt
then_with Ordering.gt o = Ordering.gt

-- The greater severity first, then by place and by detail.
unfoldable pub change_cmp : Change → Change → Ordering
change_cmp a b =
    then_with (severity_cmp b.severity a.severity)
      (then_with (text_cmp a.place b.place) (text_cmp a.detail b.detail))

-- A stable sort, as `sort_by` is.
unfoldable pub insert_change : Change → List Change → List Change
insert_change c [] = c ∷ []
insert_change c (d ∷ cs) = elim (change_cmp d c) [
  | Ordering.lt ↦ d ∷ insert_change c cs
  | _ ↦ c ∷ d ∷ cs
]

unfoldable pub sort : List Change → List Change
unfolding insert_change
sort [] = []
sort (c ∷ cs) = insert_change c (sort cs)

-- `o.difference(&n)`
unfoldable pub difference : BTreeSet → BTreeSet → List Text
difference o n = keep (λ v. not (mem_text v n)) o

-- `#/a/b/c` from a document's root; empty steps are passed over, and `~1` and `~0` are read.
unfoldable pub follow : Value → List Text → Option Value
follow node [] = some node
follow node (raw ∷ path) =
    if is_empty raw
    then follow node path
    else elim (get (replace (codes "~0") (codes "~") (replace (codes "~1") (codes "/") raw)) node) [
      | none ↦ none
      | some child ↦ follow child path
    ]

unfoldable pub resolve_pointer : Value → Text → Option Value
resolve_pointer doc pointer = elim (strip_prefix pointer (codes "#")) [
  | none ↦ none
  | some path ↦ follow doc (drop 1 (split path b'/'))
]

unfoldable pub deref : Value → Value → Value
deref doc schema = elim (as_str (index schema (codes "$ref"))) [
  | none ↦ schema
  | some pointer ↦ elim (resolve_pointer doc pointer) [ some target ↦ target | none ↦ schema ]
]

abbrev pub or_nil : Option (List Value) → List Value
or_nil none = []
or_nil (some vs) = vs

unfoldable pub required_set : Value → BTreeSet
required_set schema =
    from_list (filter_map as_str (or_nil (as_array (index schema (codes "required")))))

module _ (to_string : Value → Text) where
  unfoldable pub render : Value → Text
  render (str s) = s
  render null = codes "none"
  render v = to_string v

  abbrev constants : Option Value → List Text
  constants none = []
  constants (some c) = render c ∷ []

  -- The closure `values`: `const`, and the members of `enum`.
  unfoldable pub values : Value → BTreeSet
  values v =
      from_list (
        constants (get (codes "const") v)
        ++ map render (or_nil (as_array (index v (codes "enum")))))

  abbrev pub gone : Text → Text → Change
  gone place v = record {
    severity = breaking;
    place = place;
    detail = codes "value " ++ (v ++ codes " no longer accepted");
  }

  abbrev pub added : Text → Text → Change
  added place v = record {
    severity = additive;
    place = place;
    detail = codes "value " ++ (v ++ codes " added");
  }

  -- What `compare_enum` pushes.
  unfoldable pub compare_enum : Text → Value → Value → List Change
  compare_enum place old new =
      let o = values old in
      let n = values new in
      if is_empty o && is_empty n
      then []
      else map (gone place) (difference o n) ++ map (added place) (difference n o)

-- What `compare_keys` pushes for one key.
unfoldable pub compare_key :
    BTreeMap Value
    → BTreeMap Value
    → Text
    → (Text → Value → Value → List Change)
    → Text
    → List Change
compare_key old new noun both key = elim (map_get key old) [
  | some o ↦ elim (map_get key new) [
    | some n ↦ both key o n
    | none ↦ record { severity = breaking; place = key; detail = noun ++ codes " removed" } ∷ []
  ]
  | none ↦ elim (map_get key new) [
    | some n ↦ record { severity = additive; place = key; detail = noun ++ codes " added" } ∷ []
    | none ↦ []
  ]
]

abbrev pub flat : List (List Change) → List Change
flat [] = []
flat (cs ∷ css) = cs ++ flat css

unfoldable pub compare_keys :
    BTreeMap Value → BTreeMap Value → Text → (Text → Value → Value → List Change) → List Change
compare_keys old new noun both =
    flat (map (compare_key old new noun both) (from_list (keys old ++ keys new)))
