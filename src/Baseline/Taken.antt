-- ===== src/Baseline/Taken.antt =====
-- What holds of the files of a merge that is not refused.
use soothfast.Base.{
  ℕ, ◌+◌, ◌≤◌, ◌≡◌, refl, sym, ap, ◌∙◌, inl, inr, Bool, true, false, not, ◌&&◌, List, [], ◌∷◌,
  Option, none, some, if◌then◌else◌, ◌==◌, arith, Text, is_some, or_else, ◌||◌, all, &&_iff,
  Option-cases, Bool-cases,
}
use soothfast.Base.Options.{Result, ok, err, Result-cases}
use soothfast.Base.Json.{Value, Fields, get_field, entries}
use soothfast.Unmeasured.{Unmeasured}
use soothfast.Baseline.Shard.{Shard, owns}
use soothfast.Baseline.Unaccounted.{get_shard}
use soothfast.Baseline.Merge.{
  MergeError, Merging, entries_of, items_of, is_imported, is_rust, stamp_of, foreign, add_items,
  take_gate, take_file, take_files,
}
use soothfast.Baseline.Merged.{
  item_of, lookup, holders, one, Matched, Added, add_items-Added, items_of-item_of, ok-inj, err-ok,
}

or_else_assoc : (a b c : Option Value) → or_else (or_else a b) c ≡ or_else a (or_else b c)
or_else_assoc none b c = refl
or_else_assoc (some v) b c = refl

or_else-nothing : (a : Option Value) → a ≡ or_else a none
or_else-nothing none = refl
or_else-nothing (some v) = refl

one_at_most : (a : Option Value) → one (is_some a) + 0 ≤ 1
one_at_most none = omega arith
one_at_most (some v) = omega arith

both_at_most :
    (a b : Option Value) (n : ℕ)
    → (is_some a && is_some b) ≡ false
    → one (is_some (or_else a b)) + n ≤ 1
    → one (is_some a) + (one (is_some b) + n) ≤ 1
both_at_most none b n h k = omega (arith, k)
both_at_most (some v) none n h k = omega (arith, k)
both_at_most (some v) (some w) n h k = cc

module _ (as_bytes : Text → List ℕ) (expect : ℕ) where
  -- A gate's file that is taken: its shard is one of the split that is expected, no file of that shard
  -- came before, and it owns all that was measured.
  abbrev GateTaken : Text → Value → Fields → Merging → Type 0
  GateTaken label doc fs m =
      (shard : Shard) × (stamp_of label doc ≡ ok shard)
      × ((shard.count == expect) ≡ true)
      × (get_shard shard.position m.shards ≡ none)
      × (foreign as_bytes shard (entries fs) ≡ none)

  take_gate-GateTaken :
      (label : Text) (doc : Value) (us : List Unmeasured) (fs : Fields) (m after : Merging)
      → take_gate as_bytes label doc expect us fs m ≡ ok after
      → GateTaken label doc fs m × ((after.all_items ≡ m.all_items) × (after.origin ≡ m.origin))
  unfolding take_gate
  take_gate-GateTaken label doc us fs m after q = elim (Result-cases (stamp_of label doc)) [
    | inr (e, p) ↦ absurd (err-ok (rw (p, take_gate) at q))
    | inl (shard, p) ↦ elim (Bool-cases (shard.count == expect)) [
      | inr c ↦ absurd (err-ok (rw (p, c, take_gate) at q))
      | inl c ↦ elim (Option-cases (get_shard shard.position m.shards)) [
        | inr (s, g) ↦ absurd (err-ok (rw (p, c, g, take_gate) at q))
        | inl g ↦ elim (Option-cases (foreign as_bytes shard (entries fs))) [
          | inr (id, f) ↦ absurd (err-ok (rw (p, c, g, f, take_gate) at q))
          | inl f ↦
              let same = ok-inj (rw (p, c, g, f, take_gate) at q) in
              (
                (shard, p, c, g, f),
                (
                  ap (λ (r : Merging). r.all_items) (sym same),
                  ap (λ (r : Merging). r.origin) (sym same),
                ),
              )
        ]
      ]
    ]
  ]

  -- What one round of the loop comes to.
  abbrev FileTaken : Text → Value → Merging → Merging → Type 0
  FileTaken label doc m after =
      (fs : Fields) × (items_of label doc ≡ ok fs)
      × (is_rust doc ≡ true → GateTaken label doc fs m)
      × Added (entries fs) m after

  gate_part :
      (label : Text) (doc : Value) (us : List Unmeasured) (fs : Fields) (m taken : Merging)
      → (if is_rust doc then take_gate as_bytes label doc expect us fs m else ok m) ≡ ok taken
      → (is_rust doc ≡ true → GateTaken label doc fs m)
        × ((taken.all_items ≡ m.all_items) × (taken.origin ≡ m.origin))
  gate_part label doc us fs m taken q = elim (Bool-cases (is_rust doc)) [
    | inl e ↦
        let (good, same) = take_gate-GateTaken label doc us fs m taken (rw e at q) in
        (λ r. good, same)
    | inr e ↦
        let same : m ≡ taken = ok-inj (rw e at q) in
        (
          λ r. absurd (differ (sym e ∙ r)),
          (ap (λ (r : Merging). r.all_items) (sym same), ap (λ (r : Merging). r.origin) (sym same)),
        )
  ]
    where
      differ : false ≡ true → ⊥
      differ p = cc

  take_file-FileTaken :
      (label : Text) (doc : Value) (m after : Merging)
      → Matched m
      → take_file as_bytes expect m (label, doc) ≡ ok after
      → FileTaken label doc m after
  unfolding take_file
  take_file-FileTaken label doc m after h q = elim (Result-cases (entries_of label doc)) [
    | inr (e, p) ↦ absurd (err-ok (rw (p, take_file) at q))
    | inl (us, p) ↦ elim (Result-cases (items_of label doc)) [
      | inr (e, i) ↦ absurd (err-ok (rw (p, i, take_file) at q))
      | inl (fs, i) ↦
          elim (Result-cases
            (if is_rust doc then take_gate as_bytes label doc expect us fs m else ok m)) [
              | inr (e, g) ↦ absurd (err-ok (rw (p, i, g, take_file) at q))
              | inl (taken, g) ↦ elim (Result-cases (add_items label (entries fs) taken)) [
                | inr (e, a) ↦ absurd (err-ok (rw (p, i, g, a, take_file) at q))
                | inl (added, a) ↦
                    let (good, (items_same, origin_same)) = gate_part label doc us fs m taken g in
                    let there : Matched taken = λ id. rw (items_same, origin_same) (h id) in
                    let (matched, got, apart) =
                      add_items-Added label (entries fs) taken added there a in
                    let same = ok-inj (rw (p, i, g, a, take_file) at q) in
                    let items : added.all_items ≡ after.all_items =
                      ap (λ (r : Merging). r.all_items) same in
                    let origins : added.origin ≡ after.origin =
                      ap (λ (r : Merging). r.origin) same in
                    (
                      fs,
                      i,
                      good,
                      (
                        λ id. rw (sym items, sym origins) (matched id),
                        λ id. rw (sym items, sym items_same) (got id),
                        λ id. rw (sym items_same) (apart id),
                      ),
                    )
              ]
            ]
    ]
  ]

  -- What a file of the gate must be: of a shard of the split that is expected, which owns every item that
  -- was measured and not imported.
  abbrev sound_gate : Result MergeError Shard → Result MergeError Fields → Bool
  sound_gate (ok shard) (ok fs) =
      (shard.count == expect)
      && all (λ (e : Text × Value). is_imported e.1 || owns as_bytes shard e.0) (entries fs)
  sound_gate (ok shard) (err e) = false
  sound_gate (err e) r = false

  owns-foreign :
      (shard : Shard) (es : List (Text × Value))
      → foreign as_bytes shard es ≡ none
      → all (λ (e : Text × Value). is_imported e.1 || owns as_bytes shard e.0) es ≡ true
  unfolding foreign
  owns-foreign shard [] h = refl
  owns-foreign shard ((id, v) ∷ es) h =
      elim (Bool-cases (is_imported v || owns as_bytes shard id)) [
        | inl e ↦ rw e (owns-foreign shard es (ground (arith, h, e)))
        | inr e ↦ absurd (found (ground (arith, e)) h)
      ]
    where
      found :
          (not (is_imported v) && not (owns as_bytes shard id)) ≡ true
          → foreign as_bytes shard ((id, v) ∷ es) ≡ none
          → ⊥
      found t q = some-none (rw (t, foreign) at q)
        where
          some-none : {a : Text} → some a ≡ none → ⊥
          some-none w = cc

  unfoldable pub sound : Text × Value → Bool
  sound (label, doc) = not (is_rust doc) || sound_gate (stamp_of label doc) (items_of label doc)

  FileTaken-sound :
      (label : Text) (doc : Value) (m after : Merging)
      → FileTaken label doc m after
      → sound (label, doc) ≡ true
  unfolding sound
  FileTaken-sound label doc m after (fs, i, good, added) = elim (Bool-cases (is_rust doc)) [
    | inr e ↦ rw e refl
    | inl e ↦
        let (shard, p, c, g, f) = good e in rw (e, p, i, c, owns-foreign shard (entries fs) f) refl
  ]

  pub take_files-Taken :
      (files : List (Text × Value)) (m after : Merging)
      → Matched m
      → take_files as_bytes expect m files ≡ ok after
      → (all sound files ≡ true)
        × ((id : Text)
            → get_field id after.all_items ≡ or_else (get_field id m.all_items) (lookup id files))
        × ((id : Text) → one (is_some (get_field id m.all_items)) + holders id files ≤ 1)
  unfolding take_files lookup holders
  take_files-Taken [] m after h q =
      let p : m ≡ after = ok-inj q in
      (
        refl,
        λ id. rw p (or_else-nothing (get_field id after.all_items)),
        λ id. one_at_most (get_field id m.all_items),
      )
  take_files-Taken ((label, doc) ∷ files) m after h q =
      elim (Result-cases (take_file as_bytes expect m (label, doc))) [
        | inr (e, p) ↦ absurd (err-ok (rw (p, take_files) at q))
        | inl (next, p) ↦
            let taken = take_file-FileTaken label doc m next h p in
            let (fs, i, good, (matched, got, apart)) = taken in
            let (rest, found, few) =
              take_files-Taken files next after matched (rw (p, take_files) at q) in
            (
              (&&_iff _ _).1 (FileTaken-sound label doc m next taken, rest),
              λ id.
                  found id
                  ∙ rw (got id, items_of-item_of label id doc fs i)
                      (or_else_assoc (get_field id m.all_items) (item_of id doc) (lookup id files)),
              λ id.
                  both_at_most (get_field id m.all_items) (item_of id doc) (holders id files)
                    (rw (items_of-item_of label id doc fs i) at (apart id))
                    (rw (got id, items_of-item_of label id doc fs i) at (few id)),
            )
      ]
