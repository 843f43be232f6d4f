-- ===== src/Unmeasured/Entries.antt =====
-- What the entries of a baseline are after `append`, `clear` and `mark_in`.
use soothfast.Base.{
  ◌≡◌, refl, ap, ◌∙◌, Bool, true, false, not, List, [], ◌∷◌, ◌++◌, map, some, Text, codes, text_eq,
  mem_text, keep, All, Bool-cases, inl, inr,
}
use soothfast.Base.Options.{ok}
use soothfast.Base.Parse.{is_empty}
use soothfast.Base.BTreeSet.{BTreeSet}
use soothfast.Base.JsonAssign.{takes_keys, assign, takes_keys-set_key, takes_keys-update}
use soothfast.Base.Json.{
  update, Value, get, set_key, array, items, items-keep_items, get-set_key, get-update,
  retain_items,
}
use soothfast.Unmeasured.{Unmeasured, to_json, read_entries, read, append, stays, clear_entries}
use soothfast.Unmeasured.Owners.{
  drop_items, new_owners, set_owners, mark_entry, mark_entries, mark_rest, mark, packages,
  owners_key, named_or_owned,
}
use soothfast.Unmeasured.Written.{IsNamed}
use soothfast.Unmeasured.Reading.{
  read_at, read-read_at, read-Listed, read-IsNamed, read-written, read-cong, read_entries-keep,
}

-- On an object (or null) that is read, and for new entries with a package name, `append` succeeds: the
-- entries that were there are read first, then the new ones, and no other key of the document changes.
pub read-append :
    (doc : Value) (us es : List Unmeasured)
    → takes_keys doc ≡ true
    → read doc ≡ ok us
    → All IsNamed es
    → (after : Value) × (append doc es ≡ ok after)
      × (read after ≡ ok (us ++ es))
      × ((k : Text) → text_eq (codes "unmeasured") k ≡ false → get k after ≡ get k doc)
unfolding append assign
read-append doc us es t h n =
    let after = set_key doc (codes "unmeasured") (array (map to_json us ++ map to_json es)) in
    (
      after,
      rw (h, append, assign, t) refl,
      read-written doc us es (read-IsNamed doc us h) n,
      λ k e. rw (get-set_key doc (codes "unmeasured") k _, e) refl,
    )

-- On a document that is read, `clear_entries` leaves exactly the entries whose package it does not pick, in
-- order.
pub read-clear_entries :
    (doc : Value) (gone : Text → Bool) (us : List Unmeasured)
    → read doc ≡ ok us
    → read (clear_entries gone doc) ≡ ok (keep (λ (u : Unmeasured). not (gone u.package_name)) us)
unfolding clear_entries text_eq
read-clear_entries doc gone us h =
    read-read_at (clear_entries gone doc)
    ∙ ap read_at
        (get-update doc (codes "unmeasured") (codes "unmeasured") (retain_items (stays gone)))
    ∙ (elim (read-Listed doc us h) [
      | inl (e, f) ↦ rw (e, f) refl
      | inr (vs, e, g) ↦ rw e (
          ap read_entries (items-keep_items (stays gone) vs)
          ∙ read_entries-keep gone (items vs) us g)
    ])

takes_keys-clear_entries :
    (gone : Text → Bool) (doc : Value) → takes_keys (clear_entries gone doc) ≡ takes_keys doc
unfolding clear_entries
takes_keys-clear_entries gone doc = takes_keys-update _ _ doc

abbrev SameEntries : Value → Value → Type 0
SameEntries a b = get (codes "unmeasured") a ≡ get (codes "unmeasured") b

-- What the loop keeps of a document: that it takes keys, and its entries.
abbrev Kept : Value → Value → Type 0
Kept after doc = (takes_keys after ≡ true) × SameEntries after doc

new_owners-Kept :
    (doc : Value) (e : Unmeasured)
    → takes_keys doc ≡ true
    → (after : Value) × (new_owners doc e ≡ some after) × Kept after doc
unfolding new_owners set_owners assign text_eq
new_owners-Kept doc e t = elim (Bool-cases (is_empty e.items)) [
  | inl k ↦ rw k (
    _,
    refl,
    (takes_keys-update owners_key _ doc ∙ t, get-update doc owners_key (codes "unmeasured") _),
  )
  | inr k ↦
      rw (k, t)
        (
          _,
          refl,
          (takes_keys-set_key doc owners_key _, get-set_key doc owners_key (codes "unmeasured") _),
        )
]

mark_entries-Kept :
    (es : List Unmeasured) (doc : Value) (gone : BTreeSet)
    → takes_keys doc ≡ true
    → (after : Value) × (left : BTreeSet) × (mark_entries true (doc, gone) es ≡ some (after, left))
      × Kept after doc
unfolding mark_entries mark_entry
mark_entries-Kept [] doc gone t = (doc, gone, refl, (t, refl))
mark_entries-Kept (e ∷ es) doc gone t =
    let (next, p, (t1, s1)) = new_owners-Kept doc e t in
    let (after, left, q, (t2, s2)) = mark_entries-Kept es next (named_or_owned doc gone e) t1 in
    (after, left, rw (p, mark_entry) q, (t2, s2 ∙ s1))

drop_items-Kept :
    (doc : Value) (gone : BTreeSet) → takes_keys doc ≡ true → Kept (drop_items gone doc) doc
unfolding drop_items text_eq
drop_items-Kept doc gone t = (
  takes_keys-update _ _ (update (codes "items") _ doc) ∙ takes_keys-update _ _ doc ∙ t,
  get-update _ (codes "assertions") (codes "unmeasured") _
      ∙ get-update doc (codes "items") (codes "unmeasured") _,
)

-- On an object (or null) that is read, and for new entries with a package name, marking whole packages
-- succeeds and replaces their entries: those of every other package stay, in order, and the new ones
-- follow.
pub read-mark :
    (doc : Value) (us es : List Unmeasured)
    → takes_keys doc ≡ true
    → read doc ≡ ok us
    → All IsNamed es
    → (after : Value) × (mark doc es true ≡ ok after)
      × (read after
          ≡ ok (keep (λ (u : Unmeasured). not (mem_text u.package_name (packages es))) us ++ es))
unfolding mark mark_rest
read-mark doc us es t h n =
    let (marked, gone, m, (t1, s1)) = mark_entries-Kept es doc [] t in
    let (t2, s2) = drop_items-Kept marked gone t1 in
    let dropped = drop_items gone marked in
    let same : read dropped ≡ ok us = read-cong dropped doc (s2 ∙ s1) ∙ h in
    let (after, e, r, _) =
      read-append (clear_entries (λ p. mem_text p (packages es)) dropped) _ es
        (takes_keys-clear_entries (λ p. mem_text p (packages es)) dropped ∙ t2)
        (read-clear_entries dropped (λ p. mem_text p (packages es)) us same) n in
    (after, rw (m, mark_rest) e, r)
