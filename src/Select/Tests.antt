-- ===== src/Select/Tests.antt =====
-- Runs of the selection, and each theorem about it at a concrete input.
use soothfast.Base.{
  ◌≡◌, ◌↔◌, refl, true, List, [], ◌∷◌, none, some, Text, codes, mem_text, strip_prefix, starts_with,
}
use soothfast.Base.BTreeMap.{get}
use soothfast.Base.BTreeSet.{BTreeSet}
use soothfast.Glob.{matches, go}
use soothfast.Select.{TestConfig, select, owner}
use soothfast.Select.Dependents.{Package, with_dependents, dependents, rounds, stack, close}
use soothfast.Select.Closure.{Reach, names_of, dependents_of, with_dependents_lem}
use soothfast.Select.Effect.{first_global, touched, reaches_all, counts_for}
use soothfast.Select.Scopes.{Owns, owner-Owns, select-global, select-local}

abbrev core : Package
core = record { name = codes "core"; dir = codes "core"; manifest_dir = codes "/w/core"; deps = [] }

abbrev cli : Package
cli = record {
  name = codes "cli";
  dir = codes "cli";
  manifest_dir = codes "/w/cli";
  deps = codes "core" ∷ [];
}

abbrev pkgs : List Package
pkgs = core ∷ cli ∷ []

abbrev cfg : TestConfig
cfg = record { ignore = []; inputs = []; env = []; ci = none; retries = 0; packages = [] }

abbrev lock_changed : BTreeSet
lock_changed = codes "Cargo.lock" ∷ []

with_dependents_lem_example :
    (close
        (rounds pkgs (codes "core" ∷ []))
        (dependents pkgs [])
        (codes "core" ∷ [], stack (codes "core" ∷ []) [])
      ≡ some (with_dependents pkgs (codes "core" ∷ [])))
    × ((x : Text)
        → (mem_text x (with_dependents pkgs (codes "core" ∷ [])) ≡ true)
          ↔ Reach (dependents_of pkgs) (codes "core" ∷ []) x)
with_dependents_lem_example = with_dependents_lem pkgs (codes "core" ∷ [])

owner-Owns_example : Owns (codes "core/a.rs") pkgs (owner pkgs (codes "core/a.rs"))
owner-Owns_example = owner-Owns pkgs (codes "core/a.rs")

select-global_example :
    ((select pkgs lock_changed cfg).everything_because ≡ some (codes "Cargo.lock"))
    × ((x : Text) → mem_text x (select pkgs lock_changed cfg).names ≡ mem_text x (names_of pkgs))
unfolding first_global reaches_all mem_text owner strip_prefix
select-global_example = select-global pkgs lock_changed cfg (codes "Cargo.lock") refl

-- The documents of the package are ignored.
abbrev without_docs : TestConfig
without_docs = record {
  ignore = codes "core/*.md" ∷ [];
  inputs = [];
  env = [];
  ci = none;
  retries = 0;
  packages = [];
}

abbrev docs_changed : BTreeSet
docs_changed = codes "cli/b.rs" ∷ codes "core/a.md" ∷ []

an_ignored_file_does_not_count : touched pkgs without_docs docs_changed ≡ codes "cli" ∷ []
unfolding touched counts_for owner strip_prefix starts_with matches go get
an_ignored_file_does_not_count = refl

select-local_example :
    ((select pkgs docs_changed without_docs).everything_because ≡ none)
    × ((x : Text)
        → (mem_text x (select pkgs docs_changed without_docs).names ≡ true)
          ↔ Reach (dependents_of pkgs) (touched pkgs without_docs docs_changed) x)
unfolding first_global reaches_all mem_text owner strip_prefix starts_with matches go
select-local_example = select-local pkgs docs_changed without_docs refl
