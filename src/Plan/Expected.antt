-- ===== src/Plan/Expected.antt =====
-- Every test that the verdict is to expect is run by one job or settled without one, and not both.
use soothfast.Base.{
  ℕ, suc, ◌+◌, ◌≡◌, refl, Bool, true, false, not, ◌&&◌, List, [], ◌∷◌, map, keep, filter_map,
  Option, none, some, if◌then◌else◌, arith, Text, codes, text_eq, mem_text, Bool-cases, inl, inr,
}
use soothfast.Base.Json.{Value, index, as_str, get, get_field}
use soothfast.Plan.{Ecosystem, Plan, Candidate, candidates}
use soothfast.Plan.Jobs.{
  Verdict, skipped, reused, needs_job, job, jobs, verdict_of, settled_entry, settled,
}

-- How often a name stands in a list.
abbrev pub occurrences : Text → List Text → ℕ
occurrences t [] = 0
occurrences t (u ∷ us) = if text_eq u t then suc (occurrences t us) else occurrences t us

abbrev or_blank : Option Text → Text
or_blank none = []
or_blank (some t) = t

-- The name of a job in the matrix.
abbrev pub job_name : Value → Text
job_name v = or_blank (as_str (index v (codes "name")))

abbrev pub settled_name : Text × Text × Verdict → Text
settled_name s = s.0

module _ (installed : Ecosystem → Text) (plan : Plan) (t : Text) where
  each_once :
      (cs : List Candidate)
      → occurrences t (map (λ (c : Candidate). c.name) cs)
        ≡ occurrences t (map job_name (map (job installed plan) (keep (needs_job plan) cs)))
          + occurrences t (
              map settled_name (
                filter_map
                  (λ (c : Candidate).
                    settled_entry c (verdict_of c.reached (mem_text c.name plan.reused)))
                  cs))
  unfolding index get get_field
  each_once [] = refl
  each_once (c ∷ cs) = elim (Bool-cases c.reached) [
    | inl r ↦ elim (Bool-cases (mem_text c.name plan.reused)) [
      | inl m ↦ rw (r, m) (ground (arith, each_once cs))
      | inr m ↦ rw (r, m) (ground (arith, each_once cs))
    ]
    | inr r ↦ rw r (ground (arith, each_once cs))
  ]

  -- Of the tests that the plan lists.
  pub occurrences-candidates :
      occurrences t (map (λ (c : Candidate). c.name) (candidates plan))
      ≡ occurrences t (map job_name (jobs installed plan))
        + occurrences t (map settled_name (settled plan))
  unfolding jobs settled
  occurrences-candidates = each_once (candidates plan)

abbrev is_skipped : Verdict → Bool
is_skipped skipped = true
is_skipped _ = false

abbrev is_reused : Verdict → Bool
is_reused reused = true
is_reused _ = false

-- The names that are settled with such a verdict.
abbrev settled_as : (Verdict → Bool) → List (Text × Text × Verdict) → List Text
settled_as p entries = map settled_name (keep (λ (s : Text × Text × Verdict). p s.2) entries)

abbrev names_where : (Candidate → Bool) → List Candidate → List Text
names_where p cs = map (λ (c : Candidate). c.name) (keep p cs)

-- Which tests are jobs, skipped and reused.
module _ (installed : Ecosystem → Text) (plan : Plan) where
  abbrev covered : Candidate → Bool
  covered c = mem_text c.name plan.reused

  abbrev SortedAs : List Candidate → List Value → List (Text × Text × Verdict) → Type 0
  SortedAs cs values entries =
      (map job_name values ≡ names_where (λ (c : Candidate). c.reached && not (covered c)) cs)
      × (settled_as is_skipped entries ≡ names_where (λ (c : Candidate). not c.reached) cs)
      × (settled_as is_reused entries ≡ names_where (λ (c : Candidate). c.reached && covered c) cs)

  abbrev pub Sorted : Type 0
  Sorted = SortedAs (candidates plan) (jobs installed plan) (settled plan)

  each-Sorted :
      (cs : List Candidate)
      → SortedAs cs (map (job installed plan) (keep (needs_job plan) cs)) (
          filter_map
            (λ (c : Candidate).
              settled_entry c (verdict_of c.reached (mem_text c.name plan.reused)))
            cs)
  unfolding index get get_field
  each-Sorted [] = (refl, refl, refl)
  each-Sorted (c ∷ cs) =
      let (a, b, d) = each-Sorted cs in
      elim (Bool-cases c.reached) [
        | inl r ↦ elim (Bool-cases (mem_text c.name plan.reused)) [
          | inl m ↦ rw (r, m) (ground (arith, a), ground (arith, b), ground (arith, d))
          | inr m ↦ rw (r, m) (ground (arith, a), ground (arith, b), ground (arith, d))
        ]
        | inr r ↦ rw r (ground (arith, a), ground (arith, b), ground (arith, d))
      ]

  pub candidates-Sorted : Sorted
  unfolding jobs settled
  candidates-Sorted = each-Sorted (candidates plan)
