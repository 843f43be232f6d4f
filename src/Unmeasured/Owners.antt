-- ===== src/Unmeasured/Owners.antt =====
-- Which package owns which item, in cargo-soothfast/src/unmeasured.rs, and `mark_in` without its file.
use soothfast.Base.{
  Bool, true, not, ◌&&◌, ◌||◌, List, [], ◌∷◌, ◌++◌, map, Option, none, some, if◌then◌else◌, Text,
  codes, text_eq, mem_text, keep, filter_map, is_some,
}
use soothfast.Base.Options.{◌>>=◌, Result, err}
use soothfast.Base.JsonAssign.{assign}
use soothfast.Base.Parse.{is_empty}
use soothfast.Base.BTreeSet.{BTreeSet, insert, from_list}
use soothfast.Base.Json.{
  Value, uint, index, set_key, object, strings, as_str, as_array, as_object, update, retain_items,
  retain_fields,
}
use soothfast.Unmeasured.{Unmeasured, Reason, Stop, panicked, clear_entries, append}

abbrev pub owners_key : Text
owners_key = codes "owners"

abbrev or_nil {ℓ} : {A : Type ℓ} → Option (List A) → List A
or_nil none = []
or_nil (some xs) = xs

-- The texts of a list; other members and other values are left out.
abbrev pub texts : Value → List Text
texts v = filter_map as_str (or_nil (as_array v))

unfoldable pub owned_by : Value → Text → List Text
owned_by doc name = texts (index (index doc owners_key) name)

-- The new value under the key is an object whatever was there; none stands for the panic of the assignment to
-- the document.
unfoldable pub set_owners : Value → Text → List Text → Option Value
set_owners doc name ids =
    let owners = index doc owners_key in
    assign doc owners_key
      (set_key (if is_some (as_object owners) then owners else object []) name (strings ids))

abbrev all_texts : List (Text × Value) → List Text
all_texts [] = []
all_texts (e ∷ es) = texts e.1 ++ all_texts es

unfoldable pub owned : Value → BTreeSet
owned doc = from_list (all_texts (or_nil (as_object (index doc owners_key))))

unfoldable pub owned_by_others : Value → Text → BTreeSet
owned_by_others doc name =
    from_list
      (all_texts (keep (λ e. not (text_eq e.0 name)) (or_nil (as_object (index doc owners_key)))))

unfoldable pub entry : Text → Reason → Text → List Text → List Text → Unmeasured
entry name reason detail metrics items = record {
  package_name = name;
  reason = reason;
  detail = detail;
  items = items;
  metrics = metrics;
  except_imported = none;
}

-- Imported items keep their numbers.
abbrev keeps_item : BTreeSet → Text → Value → Bool
keeps_item ids id v = is_some (as_str (index v (codes "imported"))) || not (mem_text id ids)

abbrev keeps_assertion : BTreeSet → Value → Bool
keeps_assertion ids a = elim (as_str (index a (codes "id"))) [
  | none ↦ true
  | some id ↦ not (mem_text id ids)
]

unfoldable pub drop_items : BTreeSet → Value → Value
drop_items ids doc =
    update (codes "assertions") (retain_items (keeps_assertion ids))
      (update (codes "items") (retain_fields (keeps_item ids)) doc)

-- Whether another package owns the item and, as far as the document says, saved it.
unfoldable pub theirs : Value → Text → Text → Bool
theirs doc name id =
    mem_text id (owned_by_others doc name)
    && (elim (saved_by) [ none ↦ true | some by ↦ not (text_eq by name) ])
  where
    saved_by : Option Text
    saved_by = as_str (index (index (index doc (codes "items")) id) (codes "saved_by"))

abbrev mine : Value → Text → Text → Bool
mine doc name id = not (theirs doc name id)

abbrev extend : BTreeSet → List Text → BTreeSet
extend s [] = s
extend s (t ∷ ts) = extend (insert t s) ts

unfoldable pub new_owners : Value → Unmeasured → Option Value
new_owners doc e =
    if is_empty e.items
    then some (update owners_key (retain_fields (λ p v. not (text_eq p e.package_name))) doc)
    else set_owners doc e.package_name e.items

-- The ids that an entry lets go: those it names, and of a whole package those that it owned.
abbrev pub named : Value → BTreeSet → Unmeasured → BTreeSet
named doc gone e = extend gone (keep (mine doc e.package_name) e.items)

abbrev pub named_or_owned : Value → BTreeSet → Unmeasured → BTreeSet
named_or_owned doc gone e =
    extend (named doc gone e) (keep (mine doc e.package_name) (owned_by doc e.package_name))

-- One round of the loop, with the document and the ids that go.
unfoldable pub mark_entry : Bool → Value × BTreeSet → Unmeasured → Option (Value × BTreeSet)
mark_entry whole (doc, gone) e =
    if not whole
    then some (doc, named doc gone e)
    else new_owners doc e >>= λ after. some (after, named_or_owned doc gone e)

unfoldable pub mark_entries : Bool → Value × BTreeSet → List Unmeasured → Option (Value × BTreeSet)
mark_entries whole s [] = some s
mark_entries whole s (e ∷ es) = mark_entry whole s e >>= λ t. mark_entries whole t es

abbrev pub packages : List Unmeasured → List Text
packages = map λ (e : Unmeasured). e.package_name

-- The document that stands for a baseline that is not there.
abbrev pub blank : Value
blank = object ((codes "version", uint 1) ∷ (codes "items", object []) ∷ [])

-- What follows the loop.
unfoldable pub mark_rest : List Unmeasured → Bool → Option (Value × BTreeSet) → Result Stop Value
mark_rest entries whole none = err panicked
mark_rest entries whole (some (doc, gone)) =
    let dropped = drop_items gone doc in
    append (if whole then clear_entries (λ p. mem_text p (packages entries)) dropped else dropped)
      entries

unfoldable pub mark : Value → List Unmeasured → Bool → Result Stop Value
mark doc entries whole = mark_rest entries whole (mark_entries whole (doc, []) entries)
