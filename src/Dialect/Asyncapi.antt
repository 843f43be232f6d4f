-- ===== src/Dialect/Asyncapi.antt =====
-- soothfast-spec/src/asyncapi/diff.rs: what changed between two AsyncAPI documents.
pub mod Same
use soothfast.Base.{
  ℕ, zero, suc, List, [], ◌∷◌, ◌++◌, Option, none, some, if◌then◌else◌, is_some, Text, codes,
  text_eq,
}
use soothfast.Base.Format.{concat}
use soothfast.Base.BTreeMap.{BTreeMap, extend}
use soothfast.Base.Json.{Value, index, is_null, as_str, as_array, entries}
use soothfast.Compat.{additive, breaking, Change, change, sort, compare_keys, deref}
use soothfast.Compat.Walk.{Direction, request, response, fields_of}
use soothfast.Compat.Compare.{compare}

-- The rounds of the loop of `follow`. A reference that leads nowhere gives its own node back: the loop
-- ends there, and going on finds the same.
unfoldable pub follow_for : ℕ → Value → Value → Value
follow_for zero doc node = node
follow_for (suc n) doc node =
    let next = follow_for n doc (deref doc node) in
    if is_some (as_str (index node (codes "$ref"))) then next else node

abbrev pub follow : Value → Value → Value
follow = follow_for 8

abbrev or_unknown : Option Text → Text
or_unknown none = codes "?"
or_unknown (some t) = t

unfoldable pub action : Value → Text
action op = or_unknown (as_str (index op (codes "action")))

unfoldable pub address : Value → Value → Text
address doc op =
    or_unknown (as_str (index (follow doc (index op (codes "channel"))) (codes "address")))

-- The payload of the first message.
abbrev payload_of : Value → Option (List Value) → Option Value
payload_of doc none = none
payload_of doc (some []) = none
payload_of doc (some (first ∷ rest)) =
    let payload = index (follow doc first) (codes "payload") in
    if is_null payload then none else some payload

unfoldable pub payload : Value → Value → Option Value
payload doc op = payload_of doc (as_array (index op (codes "messages")))

abbrev pub flow : Text → Direction
flow na = if text_eq na (codes "send") then response else request

unfoldable pub operations : Value → BTreeMap Value
operations doc = extend [] (entries (fields_of (index doc (codes "operations"))))

module _ (to_string : Value → Text) (old_doc new_doc : Value) where
  abbrev address_change : Text → Text → Text → List Change
  address_change place oc nc =
      if text_eq oc nc
      then []
      else change breaking place (concat (codes "channel address " ∷ oc ∷ codes " -> " ∷ nc ∷ []))
        ∷ []

  abbrev compare_payload : Text → Option Value → Option Value → Direction → List Change
  compare_payload place (some op) (some np) dir =
      compare to_string old_doc new_doc [] (place ++ codes " payload") op np dir
  compare_payload place (some op) none dir =
      change breaking (place ++ codes " payload") (codes "message payload removed") ∷ []
  compare_payload place none (some np) dir =
      change additive (place ++ codes " payload") (codes "message payload added") ∷ []
  compare_payload place none none dir = []

  -- The closure that compares one operation.
  unfoldable pub compare_operation : Text → Value → Value → List Change
  compare_operation place o n =
      if text_eq (action o) (action n)
      then address_change place (address old_doc o) (address new_doc n)
        ++ compare_payload place (payload old_doc o) (payload new_doc n) (flow (action n))
      else change breaking place
          (concat (codes "action " ∷ action o ∷ codes " -> " ∷ action n ∷ []))
        ∷ []

module _ (to_string : Value → Text) where
  unfoldable pub diff : Value → Value → List Change
  diff old new = sort (
      compare_keys (operations old) (operations new) (codes "operation")
        (compare_operation to_string old new))
