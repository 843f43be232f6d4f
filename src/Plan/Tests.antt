-- ===== src/Plan/Tests.antt =====
-- Runs of a plan, and each theorem about it at a concrete input.
use soothfast.Base.Order.{text_cmp}
use soothfast.Base.BTreeSet.{insert}
use soothfast.Base.{
  starts_with, strip_prefix, mem_text, join, ℕ, ◌+◌, ◌≤◌, ◌≡◌, refl, false, map, List, [], ◌∷◌,
  none, some, Text, codes, arith,
}
use soothfast.Base.Options.{ok}
use soothfast.Plan.{
  test_names, check_seen, ecosystem_name, project_name, suites_for, within, touches, test_all,
  candidates_of, words, Ecosystem, node, python, Project, Plan, candidates, check_names, slug,
}
use soothfast.Plan.Jobs.{jobs, settled, legs}
use soothfast.Plan.Expected.{occurrences, job_name, settled_name, Sorted}
use soothfast.Plan.Distinct.{candidate_name, jobs-settled}
use soothfast.Plan.Legs.{owners_of, owners-legs}

abbrev project : Ecosystem → Text → Project
project eco dir = record {
  ecosystem = eco;
  dir = dir;
  bench = none;
  walltime = none;
  prefix = none;
  test = record { cmd = some (codes "make test"); watch = []; retries = 0; retry_cmd = none };
}

-- Two projects, one of which the change reaches.
abbrev plan : Plan
plan = record {
  rust_plan = none;
  projects = project node (codes "web") ∷ project python (codes "tools") ∷ [];
  ci = record { labels = none; test = none; docs = none };
  docs = false;
  docs_binds_rust = false;
  suites = [];
  labels = [];
  changed = some (codes "web/a.js" ∷ []);
  pins = record { java = none; node_version = none; runner = none };
  reused = [];
  shards = 3;
  first_shard_only = false;
}

abbrev version_of : Ecosystem → Text
version_of eco = codes "1"

abbrev bytes : Text → List ℕ
bytes t = t

a_slug : slug (codes "soothfast: slow!") ≡ codes "soothfast-slow"
unfolding slug join words
a_slug = refl

one_is_settled : map settled_name (settled plan) ≡ codes "python" ∷ []
unfolding settled candidates candidates_of test_all mem_text touches within strip_prefix starts_with
    suites_for project_name ecosystem_name
one_is_settled = refl

names_differ : check_names plan ≡ ok (codes "node" ∷ codes "python" ∷ [])
unfolding check_names check_seen test_names mem_text insert project_name ecosystem_name text_cmp
names_differ = refl

jobs-settled_example :
    (occurrences (codes "node") (map candidate_name (candidates plan))
      ≡ occurrences (codes "node") (map job_name (jobs version_of plan))
        + occurrences (codes "node") (map settled_name (settled plan)))
    × (occurrences (codes "node") (map candidate_name (candidates plan)) ≤ 1)
    × Sorted version_of plan
jobs-settled_example =
    jobs-settled (codes "node") version_of plan (codes "node" ∷ codes "python" ∷ []) names_differ

owners-legs_example : owners_of bytes (codes "a::b") (legs plan) ≡ 1
owners-legs_example = owners-legs bytes (codes "a::b") plan (omega arith) (omega arith) refl
