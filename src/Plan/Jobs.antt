-- ===== src/Plan/Jobs.antt =====
-- What `Plan` of cargo-soothfast/src/plan.rs gives a workflow: the matrix of benchmarks, that of tests, the
-- tests that need no job, and the legs of the gate.
use soothfast.Base.{
  join, ℕ, zero, suc, Bool, true, false, not, ◌&&◌, List, [], ◌∷◌, ◌++◌, map, keep, filter_map,
  Option, none, some, if◌then◌else◌, leb, Text, codes, mem_text,
}
use soothfast.Base.Format.{concat, display}
use soothfast.Base.Json.{Value, str, object, array}
use soothfast.Plan.{
  Ecosystem, rust, gradle, maven, python, node, ecosystem_name, Project, Suite, Pins, RustPlan,
  Plan, project_name, Candidate, candidates,
}

pub data Verdict : Type 0 where
  pass reused flaky failed skipped : Verdict

abbrev or_blank : Option Text → Text
or_blank none = []
or_blank (some t) = t

abbrev version : Ecosystem → Pins → Text
version node pins = or_blank pins.node_version
version python pins = codes "uv"
version rust pins = []
version gradle pins = or_blank pins.java
version maven pins = or_blank pins.java

-- `{ "include": include }`
abbrev include : List Value → Value
include vs = object ((codes "include", array vs) ∷ [])

abbrev rust_entry : Bool → Option RustPlan → List Value
rust_entry true (some plan) =
    object (
      (codes "name", str (codes "rust"))
      ∷ (codes "ecosystem", str (codes "rust"))
      ∷ (codes "dir", str (codes "."))
      ∷ (codes "packages", str (join plan.packages (codes " ")))
      ∷ [])
    ∷ []
rust_entry true none = []
rust_entry false p = []

abbrev bench_entries : List Project → List Project → List Value
bench_entries projects [] = []
bench_entries projects (p ∷ ps) =
    let rest = bench_entries projects ps in
    elim p.bench [
      | none ↦ rest
      | some bench ↦
          object (
            (codes "name", str (project_name projects p))
            ∷ (codes "ecosystem", str (ecosystem_name p.ecosystem))
            ∷ (codes "dir", str p.dir)
            ∷ (codes "bench_cmd", str bench.cmd)
            ∷ (codes "bench_out", str bench.out)
            ∷ (codes "from", str bench.format)
            ∷ (codes "walltime", str (or_blank p.walltime))
            ∷ (codes "prefix", str (or_blank p.prefix))
            ∷ [])
          ∷ rest
    ]

unfoldable pub matrix : Plan → Bool → Value
matrix plan with_rust =
    include (rust_entry with_rust plan.rust_plan ++ bench_entries plan.projects plan.projects)

-- The tests that a job has to run.
abbrev pub needs_job : Plan → Candidate → Bool
needs_job plan c = c.reached && not (mem_text c.name plan.reused)

abbrev suite_label : Option Suite → Text
suite_label none = []
suite_label (some s) = s.label

module _ (installed : Ecosystem → Text) where
  abbrev on_runner : Ecosystem → Pins → Option Text → Text
  on_runner eco pins none = installed eco
  on_runner eco pins (some runner) =
      concat (ecosystem_name eco ∷ codes " " ∷ version eco pins ∷ codes " " ∷ runner ∷ [])

  unfoldable pub toolchain_for : Ecosystem → Pins → Text
  toolchain_for eco pins = on_runner eco pins pins.runner

  abbrev pub job : Plan → Candidate → Value
  job plan c = object (
      (codes "name", str c.name)
      ∷ (codes "ecosystem", str (ecosystem_name c.project.ecosystem))
      ∷ (codes "dir", str c.project.dir)
      ∷ (codes "suite", str (suite_label c.suite))
      ∷ (codes "toolchain", str (toolchain_for c.project.ecosystem plan.pins))
      ∷ [])

  -- The entries of `include` in the matrix of tests.
  unfoldable pub jobs : Plan → List Value
  jobs plan = map (job plan) (keep (needs_job plan) (candidates plan))

  unfoldable pub test_matrix : Plan → Value
  test_matrix plan = include (jobs plan)

abbrev expected_name : Candidate → Text
expected_name c = codes "test-" ++ c.name

unfoldable pub test_expect : Plan → Text
test_expect plan = join (map expected_name (candidates plan)) (codes " ")

-- Why a test needs no job.
abbrev pub verdict_of : Bool → Bool → Option Verdict
verdict_of false b = some skipped
verdict_of true true = some reused
verdict_of true false = none

abbrev pub settled_entry : Candidate → Option Verdict → Option (Text × Text × Verdict)
settled_entry c none = none
settled_entry c (some v) = some (c.name, c.project.dir, v)

unfoldable pub settled : Plan → List (Text × Text × Verdict)
settled plan =
    filter_map
      (λ (c : Candidate). settled_entry c (verdict_of c.reached (mem_text c.name plan.reused)))
      (candidates plan)

-- A leg of the gate: its shard, and the name of its artifacts.
abbrev pub leg : ℕ → ℕ → Text × Text
leg n i = (
  concat (display i ∷ codes "/" ∷ display n ∷ []),
  concat (display i ∷ codes "-of-" ∷ display n ∷ []),
)

abbrev pub legs_from : ℕ → ℕ → ℕ → List (Text × Text)
legs_from n i zero = []
legs_from n i (suc k) = leg n i ∷ legs_from n (suc i) k

unfoldable pub legs : Plan → List (Text × Text)
legs plan =
    if leb plan.shards 1
    then ([], []) ∷ []
    else legs_from plan.shards 1 (if plan.first_shard_only then 1 else plan.shards)

abbrev leg_value : Text × Text → Value
leg_value l = object ((codes "shard", str l.0) ∷ (codes "slug", str l.1) ∷ [])

unfoldable pub shard_legs : Plan → Value
shard_legs plan = include (map leg_value (legs plan))
