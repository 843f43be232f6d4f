-- ===== src/Dialect/Openapi.antt =====
-- soothfast-spec/src/openapi/diff.rs: what changed between two OpenAPI documents. A function that the
-- code gives the changes to push on gives here what it pushes.
pub mod Same
use soothfast.Base.{
  Bool, true, false, not, ◌&&◌, List, [], ◌∷◌, ◌++◌, map, Option, none, some, if◌then◌else◌, Text,
  codes,
}
use soothfast.Base.Format.{concat}
use soothfast.Base.BTreeMap.{BTreeMap, get as map_get, insert, extend, keys}
use soothfast.Base.BTreeSet.{from_list}
use soothfast.Base.Json.{
  Value, bool, Fields, get_field, index, is_null, as_str, as_array, as_object,
}
use soothfast.Base.JsonEq.{value_eq}
use soothfast.Compat.{Severity, additive, breaking, Change, change, sort, or_nil, flat}
use soothfast.Compat.Walk.{request, response, or_blank, fields_of, names}
use soothfast.Compat.Compare.{compare}

-- `.values().next()`, and the schema of it unless that is null.
abbrev first_schema : List (Text × Value) → Option Value
first_schema [] = none
first_schema ((k, c) ∷ es) =
    if is_null (index c (codes "schema")) then none else some (index c (codes "schema"))

unfoldable pub content_schema : Value → Option Value
content_schema holder = elim (as_object (index holder (codes "content"))) [
  | none ↦ none
  | some es ↦ first_schema es
]

unfoldable pub body_schema : Value → Option Value
body_schema op = content_schema (index op (codes "requestBody"))

-- `v["required"] == Value::Bool(true)`
abbrev pub is_required : Value → Bool
is_required v = value_eq (index v (codes "required")) (bool true)

-- A parameter's entry in the index: its place and its name.
abbrev parameter_entry : Value → Text × Value
parameter_entry p = (
  concat (
      or_blank (as_str (index p (codes "in")))
      ∷ codes ":"
      ∷ or_blank (as_str (index p (codes "name")))
      ∷ []),
  p,
)

-- The closure `index` of `compare_parameters`.
unfoldable pub parameters : Value → BTreeMap Value
parameters op = extend [] (map parameter_entry (or_nil (as_array (index op (codes "parameters")))))

-- Only a parameter that must be sent breaks its callers.
abbrev pub presence_severity : Value → Severity
presence_severity p = if is_required p then breaking else additive

-- What is pushed of whether a parameter was and is required.
abbrev pub required_change : Text → Bool → Bool → List Change
required_change place false true = change breaking place (codes "parameter became required") ∷ []
required_change place true false = change additive place (codes "parameter became optional") ∷ []
required_change place true true = []
required_change place false false = []

module _ (to_string : Value → Text) where
  abbrev type_change : Text → Value → Value → List Change
  type_change place ot nt =
      if not (value_eq ot nt) && (not (is_null ot) && not (is_null nt))
      then change breaking place
          (concat (codes "type " ∷ to_string ot ∷ codes " -> " ∷ to_string nt ∷ []))
        ∷ []
      else []

  unfoldable pub compare_parameter : Text → BTreeMap Value → BTreeMap Value → Text → List Change
  compare_parameter place old_p new_p key =
      let at_key = concat (place ∷ codes " parameter " ∷ key ∷ []) in
      elim (map_get key old_p) [
        | some o ↦ elim (map_get key new_p) [
          | some n ↦
              required_change at_key (is_required o) (is_required n)
              ++ type_change at_key (index (index o (codes "schema")) (codes "type"))
                  (index (index n (codes "schema")) (codes "type"))
          | none ↦ change (presence_severity o) at_key (codes "parameter removed") ∷ []
        ]
        | none ↦ elim (map_get key new_p) [
          | some n ↦ change (presence_severity n) at_key (codes "parameter added") ∷ []
          | none ↦ []
        ]
      ]

  unfoldable pub compare_parameters : Text → Value → Value → List Change
  compare_parameters place old new =
      let old_p = parameters old in
      let new_p = parameters new in
      flat (map (compare_parameter place old_p new_p) (from_list (keys old_p ++ keys new_p)))

  module _ (old_doc new_doc : Value) where
    unfoldable pub compare_body : Text → Value → Value → List Change
    compare_body place old new = elim (body_schema old) [
      | some o ↦ elim (body_schema new) [
        | some n ↦ compare to_string old_doc new_doc [] (place ++ codes " requestBody") o n request
        | none ↦ change breaking place (codes "request body removed") ∷ []
      ]
      | none ↦ elim (body_schema new) [
        | some n ↦
            change breaking place (codes "request body added — callers that sent none will fail")
            ∷ []
        | none ↦ []
      ]
    ]

    -- Two schemas of one status, where both have one.
    abbrev compare_content : Text → Option Value → Option Value → List Change
    compare_content place (some o) (some n) =
        compare to_string old_doc new_doc [] place o n response
    compare_content place (some o) none = []
    compare_content place none n = []

    unfoldable pub compare_response : Text → Fields → Fields → Text → List Change
    compare_response place old_res new_res code =
        let at_code = concat (place ∷ codes " " ∷ code ∷ []) in
        elim (get_field code old_res) [
          | some o ↦ elim (get_field code new_res) [
            | some n ↦ compare_content at_code (content_schema o) (content_schema n)
            | none ↦ change breaking at_code (codes "response status removed") ∷ []
          ]
          | none ↦ elim (get_field code new_res) [
            | some n ↦ change additive at_code (codes "response status added") ∷ []
            | none ↦ []
          ]
        ]

    unfoldable pub compare_responses : Text → Value → Value → List Change
    compare_responses place old new =
        let old_res = fields_of (index old (codes "responses")) in
        let new_res = fields_of (index new (codes "responses")) in
        flat (
          map (compare_response place old_res new_res) (from_list (names old_res ++ names new_res)))

    unfoldable pub compare_operation : Text → Value → Value → List Change
    compare_operation place old new =
        compare_parameters place old new
        ++ (compare_body place old new ++ compare_responses place old new)

    -- What is pushed of one key of the two maps of operations.
    unfoldable pub compare_key : BTreeMap Value → BTreeMap Value → Text → List Change
    compare_key old_ops new_ops key = elim (map_get key old_ops) [
      | some o ↦ elim (map_get key new_ops) [
        | some n ↦ compare_operation key o n
        | none ↦ change breaking key (codes "operation removed") ∷ []
      ]
      | none ↦ elim (map_get key new_ops) [
        | some n ↦ change additive key (codes "operation added") ∷ []
        | none ↦ []
      ]
    ]

module _ (to_uppercase : Text → Text) where
  -- The loop over the verbs of a path.
  unfoldable pub add_methods : Text → BTreeMap Value → List (Text × Value) → BTreeMap Value
  add_methods path out [] = out
  add_methods path out ((verb, op) ∷ methods) =
      add_methods path (insert (concat (to_uppercase verb ∷ codes " " ∷ path ∷ [])) op out) methods

  -- The loop over the paths.
  unfoldable pub add_paths : BTreeMap Value → List (Text × Value) → BTreeMap Value
  add_paths out [] = out
  add_paths out ((path, item) ∷ paths) = elim (as_object item) [
    | none ↦ add_paths out paths
    | some methods ↦ add_paths (add_methods path out methods) paths
  ]

  unfoldable pub operations : Value → BTreeMap Value
  operations doc = elim (as_object (index doc (codes "paths"))) [
    | none ↦ []
    | some paths ↦ add_paths [] paths
  ]

  module _ (to_string : Value → Text) where
    unfoldable pub diff : Value → Value → List Change
    diff old new =
        let old_ops = operations old in
        let new_ops = operations new in
        sort (
          flat (
            map (compare_key to_string old new old_ops new_ops)
              (from_list (keys old_ops ++ keys new_ops))))
