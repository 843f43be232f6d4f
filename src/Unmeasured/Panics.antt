-- ===== src/Unmeasured/Panics.antt =====
-- What `mark_in` of cargo-soothfast/src/unmeasured.rs does with a document that is no object.
use soothfast.Base.{
  ◌≡◌, refl, ap, ◌∙◌, ◌⊎◌, inl, inr, Bool, true, false, List, [], ◌∷◌, none, some, if◌then◌else◌,
  Text, codes, mem_text, Bool-cases,
}
use soothfast.Base.Options.{ok, err}
use soothfast.Base.Parse.{is_empty}
use soothfast.Base.BTreeSet.{BTreeSet}
use soothfast.Base.JsonAssign.{takes_keys, assign, get-other, update-other}
use soothfast.Base.Json.{Value, update}
use soothfast.Unmeasured.{Unmeasured, panicked, read, append, clear_entries}
use soothfast.Unmeasured.Owners.{
  set_owners, new_owners, mark_entry, mark_entries, mark_rest, mark, drop_items, packages,
  owners_key, named, named_or_owned,
}
use soothfast.Unmeasured.Reading.{read_at, read-read_at}

module _ (doc : Value) (other : takes_keys doc ≡ false) where
  new_owners-other : (e : Unmeasured) → (new_owners doc e ≡ none) ⊎ (new_owners doc e ≡ some doc)
  unfolding new_owners set_owners assign
  new_owners-other e = elim (Bool-cases (is_empty e.items)) [
    | inl k ↦ inr (rw k (ap some (update-other owners_key _ doc other)))
    | inr k ↦ inl (rw (k, other) refl)
  ]

  mark_entries-other :
      (whole : Bool) (es : List Unmeasured) (gone : BTreeSet)
      → (mark_entries whole (doc, gone) es ≡ none)
        ⊎ ((left : BTreeSet) × (mark_entries whole (doc, gone) es ≡ some (doc, left)))
  unfolding mark_entries mark_entry
  mark_entries-other whole [] gone = inr (gone, refl)
  mark_entries-other false (e ∷ es) gone = mark_entries-other false es (named doc gone e)
  mark_entries-other true (e ∷ es) gone = elim (new_owners-other e) [
    | inl p ↦ inl (rw (p, mark_entry) refl)
    | inr p ↦ rw (p, mark_entry) (mark_entries-other true es (named_or_owned doc gone e))
  ]

  append-other : (es : List Unmeasured) → append doc es ≡ err panicked
  unfolding append assign
  append-other es =
      let r : read doc ≡ ok [] =
        read-read_at doc ∙ ap read_at (get-other (codes "unmeasured") doc other) in
      rw (r, append, other) refl

  drop_items-other : (gone : BTreeSet) → drop_items gone doc ≡ doc
  unfolding drop_items
  drop_items-other gone =
      ap (update (codes "assertions") _) (update-other (codes "items") _ doc other)
      ∙ update-other (codes "assertions") _ doc other

  clear_entries-other : (gone : Text → Bool) → clear_entries gone doc ≡ doc
  unfolding clear_entries
  clear_entries-other gone = update-other (codes "unmeasured") _ doc other

  -- A document that is an array, a number, a text or a Boolean is not marked: the code panics.
  pub mark-other : (es : List Unmeasured) (whole : Bool) → mark doc es whole ≡ err panicked
  unfolding mark mark_rest
  mark-other es whole = elim (mark_entries-other whole es []) [
    | inl e ↦ rw (e, mark_rest) refl
    | inr (left, e) ↦ rw (e, mark_rest, drop_items-other left) (rest whole)
  ]
    where
      rest :
          (b : Bool)
          → append (if b then clear_entries (λ p. mem_text p (packages es)) doc else doc) es
            ≡ err panicked
      rest true = ap (λ d. append d es) (clear_entries-other _) ∙ append-other es
      rest false = append-other es
