-- ===== src/Select/Effect.antt =====
-- What a change to one file affects, as docs/testing.md of the repository says it, and that `classify` decides
-- just that.
use soothfast.Base.{
  ◌≡◌, refl, ◌∙◌, Bool, true, false, not, ◌&&◌, ◌||◌, List, [], ◌∷◌, Option, none, some, arith,
  if◌then◌else◌, Text, codes, text_eq, mem_text, any, Bool-cases, Option-cases, inl, inr, ◌⊎◌,
}
use soothfast.Base.BTreeMap.{get}
use soothfast.Glob.{matches}
use soothfast.Select.{
  AllowList, TestConfig, Scope, ignored, workspace, affects, global_files, matches_any, owner,
  relative_to, left_out, classify,
}
use soothfast.Select.Dependents.{Package}
use soothfast.Select.Visit.{Names}

abbrev covered_by : List Text → Text → Bool
covered_by globs file = any (λ g. matches g file) globs

-- Whether a file of a package counts for it: its own manifest always, and without an allow-list all do.
abbrev pub listed : Option AllowList → Text → Bool
listed none rel = true
listed (some list) rel = text_eq rel (codes "Cargo.toml") || covered_by list.files rel

-- A declared input; or, unless it is ignored, a build-wide file or one that no package owns.
abbrev reaches_by : Option Package → TestConfig → Text → Bool
reaches_by none cfg file = covered_by cfg.inputs file || not (covered_by cfg.ignore file)
reaches_by (some p) cfg file =
    covered_by cfg.inputs file || (not (covered_by cfg.ignore file) && mem_text file global_files)

unfoldable pub reaches_all : List Package → TestConfig → Text → Bool
reaches_all pkgs cfg file = reaches_by (owner pkgs file) cfg file

-- Its owner, unless the file is ignored or the owner's allow-list leaves it out.
abbrev counts_by : Option Package → TestConfig → Text → Option Text
counts_by none cfg file = none
counts_by (some p) cfg file =
    if not (covered_by cfg.ignore file) && listed (get p.name cfg.packages) (relative_to p file)
    then some p.name
    else none

unfoldable pub counts_for : List Package → TestConfig → Text → Option Text
counts_for pkgs cfg file = counts_by (owner pkgs file) cfg file

abbrev scope_of : Bool → Option Text → Scope
scope_of true o = workspace
scope_of false none = ignored
scope_of false (some name) = affects name

not-listed : (o : Option AllowList) (rel : Text) → left_out o rel ≡ not (listed o rel)
unfolding matches_any
not-listed none rel = refl
not-listed (some list) rel = ground arith

classify-Effect :
    (pkgs : List Package) (cfg : TestConfig) (file : Text)
    → classify pkgs cfg file ≡ scope_of (reaches_all pkgs cfg file) (counts_for pkgs cfg file)
unfolding classify reaches_all counts_for matches_any
classify-Effect pkgs cfg file = elim (Option-cases (owner pkgs file)) [
  | inl e ↦ rw e (ground arith)
  | inr (p, e) ↦ rw e (ground (arith, not-listed (get p.name cfg.packages) (relative_to p file)))
]

-- The first file whose change reaches every package.
unfoldable pub first_global : List Package → TestConfig → List Text → Option Text
first_global pkgs cfg [] = none
first_global pkgs cfg (f ∷ fs) = if reaches_all pkgs cfg f then some f else first_global pkgs cfg fs

-- The packages that the files count for.
unfoldable pub touched : List Package → TestConfig → List Text → Names
touched pkgs cfg [] = []
touched pkgs cfg (f ∷ fs) = elim (counts_for pkgs cfg f) [
  | none ↦ touched pkgs cfg fs
  | some name ↦ name ∷ touched pkgs cfg fs
]

-- What one file is to `select`.
pub Effect-cases :
    (pkgs : List Package) (cfg : TestConfig) (file : Text)
    → ((classify pkgs cfg file ≡ workspace) × (reaches_all pkgs cfg file ≡ true))
      ⊎ ((classify pkgs cfg file ≡ ignored)
          × (reaches_all pkgs cfg file ≡ false)
          × (counts_for pkgs cfg file ≡ none))
      ⊎ ((n : Text) × (classify pkgs cfg file ≡ affects n)
          × (reaches_all pkgs cfg file ≡ false)
          × (counts_for pkgs cfg file ≡ some n))
Effect-cases pkgs cfg file = elim (Bool-cases (reaches_all pkgs cfg file)) [
  | inl r ↦ inl (classify-Effect pkgs cfg file ∙ rw r refl, r)
  | inr r ↦ elim (Option-cases (counts_for pkgs cfg file)) [
    | inl c ↦ inr (inl (classify-Effect pkgs cfg file ∙ rw (r, c) refl, r, c))
    | inr (n, c) ↦ inr (inr (n, classify-Effect pkgs cfg file ∙ rw (r, c) refl, r, c))
  ]
]
