-- ===== src/Dialect/Mcp.antt =====
-- soothfast-spec/src/mcp.rs: what changed between two manifests of tools.
pub mod Same
use soothfast.Base.{List, [], ◌∷◌, ◌++◌, Option, none, some, filter_map, Text, codes}
use soothfast.Base.BTreeMap.{BTreeMap, extend}
use soothfast.Base.Json.{Value, get, index, as_str, as_array}
use soothfast.Compat.{additive, breaking, Change, change, sort, compare_keys, or_nil}
use soothfast.Compat.Walk.{request, response}
use soothfast.Compat.Compare.{compare}

abbrev named : Value → Option Text → Option (Text × Value)
named t none = none
named t (some n) = some (n, t)

unfoldable pub by_name : Value → BTreeMap Value
by_name doc = extend [] (
    filter_map (λ t. named t (as_str (index t (codes "name"))))
      (or_nil (as_array (index doc (codes "tools")))))

module _ (to_string : Value → Text) where
  abbrev compare_output : Text → Option Value → Option Value → List Change
  compare_output place (some p) (some q) =
      compare to_string p q [] (place ++ codes " output") p q response
  compare_output place (some p) none =
      change breaking (place ++ codes " output") (codes "structured output removed") ∷ []
  compare_output place none (some q) =
      change additive (place ++ codes " output") (codes "structured output added") ∷ []
  compare_output place none none = []

  -- The closure that compares one tool.
  unfoldable pub compare_tool : Text → Value → Value → List Change
  compare_tool place o n =
      let oi = index o (codes "inputSchema") in
      let ni = index n (codes "inputSchema") in
      compare to_string oi ni [] (place ++ codes " input") oi ni request
      ++ compare_output place (get (codes "outputSchema") o) (get (codes "outputSchema") n)

  unfoldable pub diff : Value → Value → List Change
  diff old new = sort (compare_keys (by_name old) (by_name new) (codes "tool") compare_tool)
