-- ===== src/Plan.antt =====
-- cargo-soothfast/src/plan.rs: which jobs a change starts. Projects, suites and settings are those of
-- cargo-soothfast/src/init/ecosystem.rs and init/ci.rs, and which project a change reaches is decided in
-- cargo-soothfast/src/test/project.rs. What is read from files, from git and from the store of passes is
-- a field of the plan; the version that an installed toolchain reports is a parameter.
pub mod Jobs
pub mod Expected
pub mod Distinct
pub mod Legs
mod Tests
use soothfast.Base.{
  join, ℕ, Bool, true, false, not, ◌&&◌, ◌||◌, List, [], ◌∷◌, ◌++◌, map, keep, any, length, Option,
  none, some, if◌then◌else◌, ◌==◌, Text, codes, text_eq, mem_text, strip_prefix, starts_with,
  is_some,
}
use soothfast.Base.Options.{Result, ok, err}
use soothfast.Base.Parse.{is_empty}
use soothfast.Base.Format.{concat}
use soothfast.Base.BTreeSet.{BTreeSet, insert}
use soothfast.Naming.{is_ascii_alphanumeric}
use soothfast.Glob.{matches}

pub data Ecosystem : Type 0 where
  rust gradle maven python node : Ecosystem

unfoldable pub ecosystem_name : Ecosystem → Text
ecosystem_name rust = codes "rust"
ecosystem_name gradle = codes "gradle"
ecosystem_name maven = codes "maven"
ecosystem_name python = codes "python"
ecosystem_name node = codes "node"

abbrev same_ecosystem : Ecosystem → Ecosystem → Bool
same_ecosystem a b = text_eq (ecosystem_name a) (ecosystem_name b)

pub record Bench : Type 0 where
  pub cmd : Text
  pub out : Text
  pub format : Text

pub record TestRun : Type 0 where
  pub cmd : Option Text
  pub watch : List Text
  pub retries : ℕ
  pub retry_cmd : Option Text

pub record Project : Type 0 where
  pub ecosystem : Ecosystem
  pub dir : Text
  pub bench : Option Bench
  pub walltime : Option Text
  pub prefix : Option Text
  pub test : TestRun

pub record Suite : Type 0 where
  pub label : Text
  pub project : Text
  pub cmd : Text

pub record Pins : Type 0 where
  pub java : Option Text
  pub node_version : Option Text
  pub runner : Option Text

pub record RustPlan : Type 0 where
  pub packages : List Text
  pub docs_packages : List Text

pub record Ci : Type 0 where
  pub labels : Option (List Text)
  pub test : Option Bool
  pub docs : Option (List Text)

pub record Plan : Type 0 where
  pub rust_plan : Option RustPlan
  pub projects : List Project
  pub ci : Ci
  pub docs : Bool
  pub docs_binds_rust : Bool
  pub suites : List Suite
  pub labels : List Text
  pub changed : Option BTreeSet
  pub pins : Pins
  pub reused : BTreeSet
  pub shards : ℕ
  pub first_shard_only : Bool

-- The parts of a text between the characters that are no letter and no digit.
abbrev head_of : List Text → Text
head_of [] = []
head_of (t ∷ ts) = t

abbrev tail_of : List Text → List Text
tail_of [] = []
tail_of (t ∷ ts) = ts

unfoldable pub words : Text → List Text
words [] = [] ∷ []
words (c ∷ s) =
    let rest = words s in
    if is_ascii_alphanumeric c then (c ∷ head_of rest) ∷ tail_of rest else [] ∷ rest

unfoldable pub slug : Text → Text
slug label = join (keep (λ t. not (is_empty t)) (words label)) (codes "-")

abbrev dashed : Text → Text
dashed = map λ c. if is_ascii_alphanumeric c then c else b'-'

-- The closure of `names`.
unfoldable pub project_name : List Project → Project → Text
project_name projects p =
    let name = ecosystem_name p.ecosystem in
    if length (keep (λ (q : Project). same_ecosystem q.ecosystem p.ecosystem) projects) == 1
    then name
    else if text_eq p.dir (codes ".")
    then concat (name ∷ codes "-root" ∷ [])
    else concat (name ∷ codes "-" ∷ dashed p.dir ∷ [])

abbrev pub test_all_label : Text
test_all_label = codes "soothfast:test-all"

unfoldable pub test_all : Plan → Bool
test_all p = mem_text test_all_label p.labels

abbrev or_true : Option Bool → Bool
or_true none = true
or_true (some b) = b

abbrev pub runs_test : Ci → Bool
runs_test ci = or_true ci.test

abbrev slash_next : Option Text → Bool
slash_next none = false
slash_next (some rest) = starts_with rest (codes "/")

unfoldable pub within : Text → Text → Bool
within dir file = text_eq dir (codes ".") || slash_next (strip_prefix file dir)

unfoldable pub touches : Text → List Text → BTreeSet → Bool
touches dir watch changed = any (λ f. within dir f || any (λ g. matches g f) watch) changed

unfoldable pub suites_for : List Suite → List Text → List Suite
suites_for suites labels = keep (λ (s : Suite). mem_text s.label labels) suites

pub record Candidate : Type 0 where
  pub name : Text
  pub project : Project
  pub suite : Option Suite
  pub reached : Bool

abbrev reached_by : Option BTreeSet → Project → Bool
reached_by none p = true
reached_by (some changed) p = touches p.dir p.test.watch changed

abbrev pub own_test : Plan → Project → List Candidate
own_test plan p =
    if is_some p.test.cmd
    then record {
      name = project_name plan.projects p;
      project = p;
      suite = none;
      reached = test_all plan || reached_by plan.changed p;
    }
      ∷ []
    else []

abbrev pub suite_name : Plan → Project → Suite → Text
suite_name plan p s = concat (project_name plan.projects p ∷ codes "-" ∷ slug s.label ∷ [])

abbrev pub suite_tests : Plan → Project → List Suite → List Candidate
suite_tests plan p [] = []
suite_tests plan p (s ∷ ss) =
    let rest = suite_tests plan p ss in
    if text_eq s.project p.dir
    then record { name = suite_name plan p s; project = p; suite = some s; reached = true } ∷ rest
    else rest

-- The loop over the projects.
unfoldable pub candidates_of : Plan → List Project → List Candidate
candidates_of plan [] = []
candidates_of plan (p ∷ ps) =
    own_test plan p
    ++ (suite_tests plan p (suites_for plan.suites plan.labels) ++ candidates_of plan ps)

unfoldable pub candidates : Plan → List Candidate
candidates plan = if runs_test plan.ci then candidates_of plan plan.projects else []

-- The names that `check_names` goes through, whatever labels are there.
abbrev pub suite_names : Plan → Project → List Suite → List Text
suite_names plan p [] = []
suite_names plan p (s ∷ ss) =
    let rest = suite_names plan p ss in
    if text_eq s.project p.dir then suite_name plan p s ∷ rest else rest

unfoldable pub test_names : Plan → List Project → List Text
test_names plan [] = []
test_names plan (p ∷ ps) =
    (if is_some p.test.cmd then project_name plan.projects p ∷ [] else [])
    ++ (suite_names plan p plan.suites ++ test_names plan ps)

-- The name that two tests share.
unfoldable pub check_seen : BTreeSet → List Text → Result Text BTreeSet
check_seen seen [] = ok seen
check_seen seen (t ∷ ts) =
    let rest = check_seen (insert t seen) ts in if mem_text t seen then err t else rest

unfoldable pub check_names : Plan → Result Text BTreeSet
check_names plan = check_seen [] (test_names plan plan.projects)
