-- ===== src/Verdict/Gate.antt =====
-- What the fold, the missing results and the sort of `merge` do to its exit code.
use soothfast.Base.{
  ◌≡◌, refl, ap, ◌∙◌, Bool, true, not, ◌||◌, List, [], ◌∷◌, ◌++◌, Option, none, some, arith,
  if◌then◌else◌, Text, text_eq_iff, mem_text, any, any-append, Option-cases, inl, inr, is_some,
  ||_assoc,
}
use soothfast.Base.Order.{text_cmp-eq, text_cmp_refl}
use soothfast.Base.BTreeMap.{BTreeMap, get, insert, values}
use soothfast.Verdict.Types.{Verdict, verdict_min, Record}
use soothfast.Verdict.Absorb.{absorb}
use soothfast.Verdict.Fold.{base_name, renamed, fold_step, fold_loop, fold}
use soothfast.Verdict.Report.{
  failing, fails, errored_record, missing, seen_names, insert_record, sort_records, merge_records,
  merge_exit,
}

abbrev fails_of : Bool → Record → Bool
fails_of accepted r = failing accepted r.verdict

module _ (p : Record → Bool) where
  any-get :
      (k : Text) (m : BTreeMap Record) (r : Record)
      → get k m ≡ some r
      → p r ≡ true
      → any p (values m) ≡ true
  unfolding get
  any-get k [] r e h = cc
  any-get k ((j, w) ∷ m) r e h = ground (arith, any-get k m r)

  any-insert-absent :
      (k : Text) (r : Record) (m : BTreeMap Record)
      → get k m ≡ none
      → any p (values (insert k r m)) ≡ (any p (values m) || p r)
  unfolding get insert
  any-insert-absent k r [] e = ground arith
  any-insert-absent k r ((j, w) ∷ m) e =
      ground (arith, any-insert-absent k r m, text_cmp-eq k j, text_eq_iff j k)

  any-insert-present :
      (k : Text) (r s : Record) (c : Bool) (m : BTreeMap Record)
      → get k m ≡ some s
      → p r ≡ (p s || c)
      → any p (values (insert k r m)) ≡ (any p (values m) || c)
  unfolding get insert
  any-insert-present k r s c [] e h = cc
  any-insert-present k r s c ((j, w) ∷ m) e h = ground (
    arith,
    any-insert-present k r s c m,
    any-get k m s,
    text_cmp-eq k j,
    text_cmp_refl k,
    text_eq_iff j k,
  )

failing-min :
    (acc : Bool) (v w : Verdict) → failing acc (verdict_min v w) ≡ (failing acc v || failing acc w)
failing-min acc v w = ground arith

any-fold_step :
    (acc : Bool) (m : BTreeMap Record) (r : Record)
    → any (fails_of acc) (values (fold_step m r))
      ≡ (any (fails_of acc) (values m) || fails_of acc r)
unfolding fold_step renamed absorb
any-fold_step acc m r = elim (Option-cases (get (base_name r) m)) [
  | inl e ↦ rw (e, fold_step) (any-insert-absent (fails_of acc) (base_name r) (renamed r) m e)
  | inr (s, e) ↦
      rw (e, fold_step)
        (any-insert-present (fails_of acc) (base_name r) (absorb s (renamed r)) s (fails_of acc r) m
          e (failing-min acc s.verdict r.verdict))
]

any-fold_loop :
    (acc : Bool) (m : BTreeMap Record) (rs : List Record)
    → any (fails_of acc) (values (fold_loop m rs)) ≡ (any (fails_of acc) (values m) || fails rs acc)
unfolding fold_loop fails
any-fold_loop acc m [] = ground arith
any-fold_loop acc m (r ∷ rs) =
    any-fold_loop acc (fold_step m r) rs
    ∙ ap (λ b. b || any (fails_of acc) rs) (any-fold_step acc m r)
    ∙ ||_assoc (any (fails_of acc) (values m)) (fails_of acc r) (any (fails_of acc) rs)

-- Folding shards into their projects neither hides a failure nor makes one up.
pub fails-fold : (rs : List Record) (acc : Bool) → fails (fold rs) acc ≡ fails rs acc
unfolding fold fails
fails-fold rs acc = any-fold_loop acc [] rs

fails-insert_record :
    (r : Record) (rs : List Record) (acc : Bool)
    → fails (insert_record r rs) acc ≡ (fails_of acc r || fails rs acc)
unfolding insert_record fails
fails-insert_record r [] acc = refl
fails-insert_record r (s ∷ rs) acc = ground (arith, fails-insert_record r rs acc)

fails-sort_records : (rs : List Record) (acc : Bool) → fails (sort_records rs) acc ≡ fails rs acc
unfolding sort_records fails
fails-sort_records [] acc = refl
fails-sort_records (r ∷ rs) acc =
    fails-insert_record r (sort_records rs) acc
    ∙ ap (λ b. fails_of acc r || b) (fails-sort_records rs acc)

-- Whether an expected name is not among the names read.
abbrev pub unseen : List Record → Text × Text → Bool
unseen raw e = not (mem_text e.0 (seen_names raw))

fails-missing :
    (raw : List Record) (expect : List (Text × Text)) (acc : Bool)
    → fails (missing (seen_names raw) expect) acc ≡ any (unseen raw) expect
unfolding missing fails errored_record
fails-missing raw [] acc = refl
fails-missing raw ((name, kind) ∷ expect) acc = ground (arith, fails-missing raw expect acc)

fails-merge_records :
    (raw : List Record) (expect : List (Text × Text)) (acc : Bool)
    → fails (merge_records raw expect) acc ≡ (fails raw acc || any (unseen raw) expect)
unfolding merge_records
fails-merge_records raw expect acc =
    fails-sort_records (fold raw ++ missing (seen_names raw) expect) acc
    ∙ split
    ∙ ap (λ b. b || fails (missing (seen_names raw) expect) acc) (fails-fold raw acc)
    ∙ ap (λ b. fails raw acc || b) (fails-missing raw expect acc)
  where
    split :
        fails (fold raw ++ missing (seen_names raw) expect) acc
        ≡ (fails (fold raw) acc || fails (missing (seen_names raw) expect) acc)
    split = unfold fails in any-append (fails_of acc) (fold raw) (missing (seen_names raw) expect)

-- `merge` exits with 1 exactly when a record that it read is errored, or regressed with no label that
-- accepts it, or when an expected result was not recorded; and with 0 otherwise.
pub merge_exit_lem :
    (raw : List Record) (expect : List (Text × Text)) (accepted : Option Text)
    → merge_exit raw expect accepted
      ≡ (if fails raw (is_some accepted) || any (unseen raw) expect then 1 else 0)
unfolding merge_exit
merge_exit_lem raw expect accepted =
    ap (λ b. if b then 1 else 0) (fails-merge_records raw expect (is_some accepted))
