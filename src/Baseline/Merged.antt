-- ===== src/Baseline/Merged.antt =====
-- The items of a merged baseline are the items of its files, each from the one file that has it.
use soothfast.Base.{
  ℕ, ◌+◌, ◌≡◌, refl, sym, ap, ◌∙◌, inl, inr, Bool, true, false, ◌&&◌, List, [], ◌∷◌, Option, none,
  some, if◌then◌else◌, arith, Text, codes, text_eq, text_eq_iff, is_some, or_else, Option-cases,
  Bool-cases,
}
use soothfast.Base.Options.{Result, ok, err}
use soothfast.Base.BTreeMap.{get as map_get, insert as map_insert, get-insert}
use soothfast.Base.Json.{
  Value, null, bool, uint, negint, float, str, arr, obj, Fields, end, field, get_field, get, index,
  set_field, get_field-set_field, entries,
}
use soothfast.Baseline.Merge.{Merging, fields_or, items_of, add_items}

-- `doc["items"].get(id)`
abbrev pub item_of : Text → Value → Option Value
item_of id doc = get id (index doc (codes "items"))

-- The item in the first of the files that has it.
unfoldable pub lookup : Text → List (Text × Value) → Option Value
lookup id [] = none
lookup id ((label, doc) ∷ files) = or_else (item_of id doc) (lookup id files)

abbrev pub one : Bool → ℕ
one true = 1
one false = 0

-- How many of the files have the item.
unfoldable pub holders : Text → List (Text × Value) → ℕ
holders id [] = 0
holders id ((label, doc) ∷ files) = one (is_some (item_of id doc)) + holders id files

-- Where the items came from is known of just those that are in.
abbrev pub Matched : Merging → Type 0
Matched m = (id : Text) → is_some (map_get id m.origin) ≡ is_some (get_field id m.all_items)

pub ok-inj : {E A : Type 0} {a b : A} → ◌≡◌ {A = Result E A} (ok a) (ok b) → a ≡ b
ok-inj h = cc

pub err-ok : {E A : Type 0} {e : E} {a : A} → ◌≡◌ {A = Result E A} (err e) (ok a) → ⊥
err-ok h = cc

abbrev pub with_item : Text → Text → Value → Merging → Merging
with_item label i v m = record m {
  all_items = set_field i v m.all_items;
  origin = map_insert i label m.origin;
}

Matched-with_item :
    (label i : Text) (v : Value) (m : Merging) → Matched m → Matched (with_item label i v m)
Matched-with_item label i v m h id =
    rw (get-insert i id label m.origin, get_field-set_field i id v m.all_items)
      (ground (arith, h id))

-- What the loop over the items of a file comes to.
abbrev pub Added : List (Text × Value) → Merging → Merging → Type 0
Added es m after =
    Matched after
    × ((id : Text)
        → get_field id after.all_items ≡ or_else (get_field id m.all_items) (map_get id es))
    × ((id : Text) → (is_some (get_field id m.all_items) && is_some (map_get id es)) ≡ false)

-- An item that is not in yet takes its place behind those that are.
placed :
    (i id : Text) (v : Value) (there later : Option Value)
    → (text_eq i id ≡ true → is_some there ≡ false)
    → or_else (if text_eq i id then some v else there) later
      ≡ or_else there (if text_eq i id then some v else later)
placed i id v none later h = ground arith
placed i id v (some w) later h = elim (Bool-cases (text_eq i id)) [
  | inl t ↦ absurd (filled (h t))
  | inr t ↦ rw t refl
]
  where
    filled : true ≡ false → ⊥
    filled q = cc

absent :
    (i id : Text) (m : Merging)
    → Matched m
    → map_get i m.origin ≡ none
    → text_eq i id ≡ true
    → is_some (get_field id m.all_items) ≡ false
absent i id m h e t = let p : i ≡ id = (text_eq_iff i id).0 t in sym (h id) ∙ rw (sym p, e) refl

pub add_items-Added :
    (label : Text) (es : List (Text × Value)) (m after : Merging)
    → Matched m
    → add_items label es m ≡ ok after
    → Added es m after
unfolding add_items map_get
add_items-Added label [] m after h q =
    let p : m ≡ after = ok-inj q in
    rw (sym p) (h, λ id. nothing_more (get_field id m.all_items), λ id. ground arith)
  where
    nothing_more : (o : Option Value) → o ≡ or_else o none
    nothing_more none = refl
    nothing_more (some v) = refl
add_items-Added label ((i, v) ∷ es) m after h q = elim (Option-cases (map_get i m.origin)) [
  | inr (first, e) ↦ absurd (err-ok (rw (e, add_items) at q))
  | inl e ↦
      let (matched, got, apart) =
        add_items-Added label es (with_item label i v m) after (Matched-with_item label i v m h)
          (rw (e, add_items) at q) in
      (
        matched,
        λ id.
            got id
            ∙ rw (get_field-set_field i id v m.all_items)
                (placed i id v (get_field id m.all_items) (map_get id es) (absent i id m h e)),
        λ id. ground (arith, apart id, get_field-set_field i id v m.all_items, absent i id m h e),
      )
]

map_get-entries : (id : Text) (fs : Fields) → map_get id (entries fs) ≡ get_field id fs
unfolding map_get get_field
map_get-entries id end = refl
map_get-entries id (field k v fs) = ground (arith, map_get-entries id fs)

pub items_of-item_of :
    (label id : Text) (doc : Value) (fs : Fields)
    → items_of label doc ≡ ok fs
    → map_get id (entries fs) ≡ item_of id doc
unfolding items_of index get
items_of-item_of label id doc fs q = elim (Option-cases (get (codes "items") doc)) [
  | inl e ↦ rw e (none_in (ok-inj (rw (e, items_of) at q)))
  | inr (v, e) ↦ rw e (some_in v (rw (e, items_of) at q))
]
  where
    none_in : end ≡ fs → map_get id (entries fs) ≡ none
    none_in p = rw (sym p) (map_get-entries id end)

    some_in : (v : Value) → fields_or label (some v) ≡ ok fs → map_get id (entries fs) ≡ get id v
    some_in (obj gs) p = map_get-entries id fs ∙ ap (get_field id) (sym (ok-inj p))
    some_in null p = absurd (err-ok p)
    some_in (bool b) p = absurd (err-ok p)
    some_in (uint n) p = absurd (err-ok p)
    some_in (negint n) p = absurd (err-ok p)
    some_in (float n) p = absurd (err-ok p)
    some_in (str t) p = absurd (err-ok p)
    some_in (arr vs) p = absurd (err-ok p)
