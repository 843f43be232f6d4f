-- ===== src/Dialect/Graphql.antt =====
-- soothfast-spec/src/graphql/diff.rs: what changed between two graphs of types.
pub mod Same
pub mod TypeRef
pub mod Nullability
use soothfast.Base.{
  ℕ, Bool, true, false, not, ◌&&◌, ◌||◌, List, [], ◌∷◌, ◌++◌, map, keep, length, Option, none, some,
  if◌then◌else◌, ltb, ◌==◌, Text, codes, text_eq, mem_text, filter_map,
}
use soothfast.Base.Parse.{is_empty}
use soothfast.Base.Format.{concat, replace}
use soothfast.Base.BTreeMap.{BTreeMap, get as map_get, extend, keys}
use soothfast.Base.BTreeSet.{from_list}
use soothfast.Base.Json.{Value, index, as_str, as_array, entries}
use soothfast.Compat.{
  Severity, additive, breaking, Change, change, sort, compare_keys, or_nil, flat,
}
use soothfast.Compat.Walk.{Direction, request, response, or_blank, fields_of}

-- `members(doc, key)` is `fields(doc[key])`.
unfoldable pub fields : Value → BTreeMap Value
fields decl = extend [] (entries (fields_of decl))

abbrev kind_of : Option Text → Text
kind_of none = codes "type"
kind_of (some k) = k

unfoldable pub kind : Value → Text
kind decl = kind_of (as_str (index decl (codes "kind")))

unfoldable pub type_of : Value → Text
type_of field = or_blank (as_str (index field (codes "type")))

abbrev pub is_mark : ℕ → Bool
is_mark c = c == b'!'

unfoldable pub shape : Text → Text
shape = keep λ c. not (is_mark c)

-- `t.matches('!').count()`
unfoldable pub marks : Text → ℕ
marks t = length (keep is_mark t)

-- `t.ends_with('!')`
unfoldable pub non_null : Text → Bool
non_null [] = false
non_null (c ∷ []) = is_mark c
non_null (c ∷ t) = non_null t

unfoldable pub tightened : Text → Text → Bool
tightened ot nt = non_null nt && not (non_null ot) || ltb (marks ot) (marks nt)

-- Demanding more of a caller, or guaranteeing less to one.
abbrev pub nullability_severity : Direction → Bool → Severity
nullability_severity request true = breaking
nullability_severity response false = breaking
nullability_severity request false = additive
nullability_severity response true = additive

abbrev nullability_detail : Text → Text → Bool → Text
nullability_detail ot nt true =
    concat (codes "became non-null (" ∷ ot ∷ codes " -> " ∷ nt ∷ codes ")" ∷ [])
nullability_detail ot nt false =
    concat (codes "became nullable (" ∷ ot ∷ codes " -> " ∷ nt ∷ codes ")" ∷ [])

unfoldable pub compare_types : Text → Text → Text → Direction → List Change
compare_types place ot nt dir =
    if text_eq ot nt
    then []
    else if text_eq (shape ot) (shape nt)
    then change (nullability_severity dir (tightened ot nt)) place
        (nullability_detail ot nt (tightened ot nt))
      ∷ []
    else change breaking place (concat (codes "type " ∷ ot ∷ codes " -> " ∷ nt ∷ [])) ∷ []

unfoldable pub compare_field : Text → Value → Value → Direction → List Change
compare_field place old new dir = compare_types place (type_of old) (type_of new) dir

-- A new input field that is not null is one that every caller now has to supply.
abbrev pub field_added_severity : Direction → Bool → Severity
field_added_severity request true = breaking
field_added_severity request false = additive
field_added_severity response b = additive

-- What `compare_field_set` pushes for one name.
unfoldable pub compare_named_field :
    Text → BTreeMap Value → BTreeMap Value → Direction → Text → List Change
compare_named_field place old new dir name =
    let at_name = concat (place ∷ codes "." ∷ name ∷ []) in
    elim (map_get name old) [
      | some o ↦ elim (map_get name new) [
        | some n ↦ compare_field at_name o n dir
        | none ↦ change breaking at_name (codes "field removed") ∷ []
      ]
      | none ↦ elim (map_get name new) [
        | some f ↦
            change (field_added_severity dir (non_null (type_of f))) at_name (codes "field added")
            ∷ []
        | none ↦ []
      ]
    ]

unfoldable pub compare_field_set : Text → BTreeMap Value → BTreeMap Value → Direction → List Change
compare_field_set place old new dir =
    flat (map (compare_named_field place old new dir) (from_list (keys old ++ keys new)))

-- An argument does not report itself as a field.
abbrev pub reword : Change → Change
reword c = record c { detail = replace (codes "field ") (codes "argument ") c.detail }

unfoldable pub compare_arguments : Text → Value → Value → List Change
compare_arguments place old new =
    let o = fields (index old (codes "args")) in
    let n = fields (index new (codes "args")) in
    if is_empty o && is_empty n then [] else map reword (compare_field_set place o n request)

-- The closure `values`.
unfoldable pub enum_values : Value → List Text
enum_values v = filter_map as_str (or_nil (as_array (index v (codes "values"))))

abbrev value_gone : Text → Text → Change
value_gone place v =
    change breaking place (concat (codes "value " ∷ v ∷ codes " no longer accepted" ∷ []))

abbrev value_added : Text → Text → Change
value_added place v = change additive place (concat (codes "value " ∷ v ∷ codes " added" ∷ []))

unfoldable pub compare_enum_values : Text → Value → Value → List Change
compare_enum_values place old new =
    let o = enum_values old in
    let n = enum_values new in
    map (value_gone place) (keep (λ v. not (mem_text v n)) o)
    ++ map (value_added place) (keep (λ v. not (mem_text v o)) n)

abbrev pub fields_direction : Text → Direction
fields_direction k = if text_eq k (codes "input") then request else response

unfoldable pub compare_type : Text → Value → Value → List Change
compare_type place old new =
    if text_eq (kind old) (kind new)
    then if text_eq (kind old) (codes "enum")
      then compare_enum_values place old new
      else if text_eq (kind old) (codes "scalar")
      then []
      else compare_field_set place (fields (index old (codes "fields")))
          (fields (index new (codes "fields"))) (fields_direction (kind old))
    else change breaking place (concat (codes "kind " ∷ kind old ∷ codes " -> " ∷ kind new ∷ []))
      ∷ []

-- The closure that compares a field of a root.
unfoldable pub compare_root_field : Text → Text → Value → Value → List Change
compare_root_field root name o n =
    let place = concat (root ∷ codes "." ∷ name ∷ []) in
    compare_field place o n response ++ compare_arguments place o n

unfoldable pub compare_root : Value → Value → Text → List Change
compare_root old new root =
    compare_keys (fields (index (index old (codes "roots")) root))
      (fields (index (index new (codes "roots")) root)) (codes "field") (compare_root_field root)

abbrev pub root_names : List Text
root_names = codes "Query" ∷ codes "Mutation" ∷ codes "Subscription" ∷ []

unfoldable pub diff : Value → Value → List Change
diff old new = sort (
    compare_keys (fields (index old (codes "types"))) (fields (index new (codes "types")))
      (codes "type") compare_type
    ++ flat (map (compare_root old new) root_names))
