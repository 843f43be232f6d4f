-- ===== src/Plan/Distinct.antt =====
-- When no two tests share a name, each has one job or is settled once at most.
use soothfast.Base.{
  ℕ, ◌+◌, ◌≤◌, ◌≡◌, refl, ap, Bool, true, false, ◌||◌, List, [], ◌∷◌, ◌++◌, map, keep, is_some,
  if◌then◌else◌, arith, Text, text_eq, text_eq_iff, mem_text, Bool-cases, inl, inr,
}
use soothfast.Base.Options.{Result, ok, err}
use soothfast.Base.BTreeSet.{BTreeSet, insert, mem-insert}
use soothfast.Plan.{
  Ecosystem, Plan, Project, Suite, Candidate, project_name, own_test, suite_tests, suite_names,
  suites_for, candidates_of, candidates, test_names, check_seen, check_names, runs_test,
}
use soothfast.Plan.Jobs.{jobs, settled}
use soothfast.Plan.Expected.{
  occurrences, job_name, settled_name, occurrences-candidates, Sorted, candidates-Sorted,
}

abbrev one : Bool → ℕ
one true = 1
one false = 0

err-ok : {s : BTreeSet} {u : Text} → ◌≡◌ {A = Result Text BTreeSet} (err u) (ok s) → ⊥
err-ok h = cc

abbrev pub candidate_name : Candidate → Text
candidate_name c = c.name

module _ (t : Text) where
  check_seen-once :
      (seen s : BTreeSet) (ts : List Text)
      → check_seen seen ts ≡ ok s
      → one (mem_text t seen) + occurrences t ts ≤ 1
  unfolding check_seen
  check_seen-once seen s [] h = elim (Bool-cases (mem_text t seen)) [
    | inl m ↦ rw m (omega arith)
    | inr m ↦ rw m (omega arith)
  ]
  check_seen-once seen s (u ∷ ts) h = elim (Bool-cases (mem_text u seen)) [
    | inl m ↦ absurd (err-ok (rw (m, check_seen) at h))
    | inr m ↦
        let rest : one (text_eq u t || mem_text t seen) + occurrences t ts ≤ 1 =
          rw (mem-insert t u seen) at
            (check_seen-once (insert u seen) s ts (rw (m, check_seen) at h)) in
        elim (Bool-cases (text_eq u t)) [
          | inl e ↦
              let q : u ≡ t = (text_eq_iff u t).0 e in
              rw (e, rw q at m) (omega (arith, rw e at rest))
          | inr e ↦ rw e (rw e at rest)
        ]
  ]

  occurrences-append :
      (us vs : List Text) → occurrences t (us ++ vs) ≡ occurrences t us + occurrences t vs
  occurrences-append [] vs = omega arith
  occurrences-append (u ∷ us) vs = ground (arith, occurrences-append us vs)

  map-append :
      (cs ds : List Candidate)
      → map candidate_name (cs ++ ds) ≡ map candidate_name cs ++ map candidate_name ds
  map-append [] ds = refl
  map-append (c ∷ cs) ds = ap (λ ts. c.name ∷ ts) (map-append cs ds)

  suite_tests-le :
      (plan : Plan) (p : Project) (q : Suite → Bool) (ss : List Suite)
      → occurrences t (map candidate_name (suite_tests plan p (keep q ss)))
        ≤ occurrences t (suite_names plan p ss)
  suite_tests-le plan p q [] = omega arith
  suite_tests-le plan p q (s ∷ ss) = ground (arith, suite_tests-le plan p q ss)

  abbrev own_names : Plan → Project → List Text
  own_names plan p = if is_some p.test.cmd then project_name plan.projects p ∷ [] else []

  own-names : (plan : Plan) (p : Project) → map candidate_name (own_test plan p) ≡ own_names plan p
  own-names plan p = elim (Bool-cases (is_some p.test.cmd)) [
    | inl e ↦ rw e refl
    | inr e ↦ rw e refl
  ]

  candidates-le :
      (plan : Plan) (ps : List Project)
      → occurrences t (map candidate_name (candidates_of plan ps))
        ≤ occurrences t (test_names plan ps)
  unfolding candidates_of test_names suites_for
  candidates-le plan [] = omega arith
  candidates-le plan (p ∷ ps) =
      let tests = suite_tests plan p (suites_for plan.suites plan.labels) in
      rw
        (
          map-append (own_test plan p) (tests ++ candidates_of plan ps),
          map-append tests (candidates_of plan ps),
          occurrences-append (map candidate_name (own_test plan p))
              (map candidate_name tests ++ map candidate_name (candidates_of plan ps)),
          occurrences-append (map candidate_name tests)
              (map candidate_name (candidates_of plan ps)),
          occurrences-append (own_names plan p)
              (suite_names plan p plan.suites ++ test_names plan ps),
          occurrences-append (suite_names plan p plan.suites) (test_names plan ps),
          own-names plan p,
        )
        (omega (
          arith,
          candidates-le plan ps,
          suite_tests-le plan p (λ (s : Suite). mem_text s.label plan.labels) plan.suites,
        ))

  candidates-once :
      (plan : Plan) (seen : BTreeSet)
      → check_names plan ≡ ok seen
      → occurrences t (map candidate_name (candidates plan)) ≤ 1
  unfolding check_names candidates
  candidates-once plan seen h = elim (Bool-cases (runs_test plan.ci)) [
    | inl e ↦ rw e (
        omega (
          arith,
          candidates-le plan plan.projects,
          check_seen-once [] seen (test_names plan plan.projects) h,
        ))
    | inr e ↦ rw e (omega arith)
  ]

  -- Where no two tests share a name, each test that the plan lists is one job in the matrix of tests or
  -- is settled without one, never both, and a name that it does not list is neither. The jobs are the tests
  -- that the change reaches and no stored pass covers; settled as skipped are those that it does not reach,
  -- and settled as reused those that it reaches and a stored pass covers, each in the plan's order.
  pub jobs-settled :
      (installed : Ecosystem → Text) (plan : Plan) (seen : BTreeSet)
      → check_names plan ≡ ok seen
      → (occurrences t (map candidate_name (candidates plan))
          ≡ occurrences t (map job_name (jobs installed plan))
            + occurrences t (map settled_name (settled plan)))
        × (occurrences t (map candidate_name (candidates plan)) ≤ 1)
        × Sorted installed plan
  jobs-settled installed plan seen h = (
    occurrences-candidates installed plan t,
    candidates-once plan seen h,
    candidates-Sorted installed plan,
  )
