-- ===== src/Select/Scopes.antt =====
-- What `owner` and `select` choose.
use soothfast.Base.{
  ℕ, ◌≤◌, ◌≡◌, ◌↔◌, refl, sym, ap, ◌∙◌, inl, inr, Bool-cases, Bool, true, false, ◌||◌, List, [],
  ◌∷◌, Option, none, some, arith, ltb, Text, mem_text, text_eq, length, keep, All,
}
use soothfast.Base.BTreeSet.{BTreeSet, insert, mem-insert, mem-from_list}
use soothfast.Select.{TestConfig, holds, better, longest, owner, everything, select_loop, select}
use soothfast.Select.Effect.{first_global, touched, Effect-cases}
use soothfast.Select.Dependents.{Package, with_dependents}
use soothfast.Select.Visit.{Names}
use soothfast.Select.Closure.{Reach, start, step, names_of, dependents_of, with_dependents_lem}

-- What `owner` promises: a package that holds the file, none with a longer dir, or none holds it.
abbrev pub Owns : Text → List Package → Option Package → Type 0
Owns file pkgs none = All (λ q. holds file q ≡ false) pkgs
Owns file pkgs (some p) =
    (holds file p ≡ true)
    × All (λ (q : Package). holds file q ≡ true → length q.dir ≤ length p.dir) pkgs

better-ge_left : (b p : Package) → length b.dir ≤ length (better b p).dir
unfolding better
better-ge_left b p = ground arith

better-ge_right : (b p : Package) → length p.dir ≤ length (better b p).dir
unfolding better
better-ge_right b p = ground arith

better-holds :
    (file : Text) (b p : Package)
    → holds file b ≡ true
    → holds file p ≡ true
    → holds file (better b p) ≡ true
unfolding better
better-holds file b p h k = elim (Bool-cases (ltb (length p.dir) (length b.dir))) [
  | inl e ↦ rw e h
  | inr e ↦ rw e k
]

-- The package that `longest` ends with, from the best so far.
best : Package → List Package → Package
best b [] = b
best b (p ∷ ps) = best (better b p) ps

longest-best : (b : Package) (ps : List Package) → longest (some b) ps ≡ some (best b ps)
unfolding longest best
longest-best b [] = refl
longest-best b (p ∷ ps) = longest-best (better b p) ps

best-ge : (b : Package) (ps : List Package) → length b.dir ≤ length (best b ps).dir
unfolding best
best-ge b [] = omega arith
best-ge b (p ∷ ps) = omega (arith, best-ge (better b p) ps, better-ge_left b p)

module _ (file : Text) where
  best-holds :
      (b : Package) (ps : List Package)
      → holds file b ≡ true
      → holds file (best b (keep (holds file) ps)) ≡ true
  unfolding best
  best-holds b [] h = h
  best-holds b (p ∷ ps) h = elim (Bool-cases (holds file p)) [
    | inr e ↦ rw e (best-holds b ps h)
    | inl e ↦ rw e (best-holds (better b p) ps (better-holds file b p h e))
  ]

  abbrev AtMost : ℕ → List Package → Type 0
  AtMost n = All λ (q : Package). holds file q ≡ true → length q.dir ≤ n

  clash : (p : Package) (n : ℕ) → holds file p ≡ false → holds file p ≡ true → length p.dir ≤ n
  clash p n e t = cc

  -- The best so far counts too, so a package is below it or below one that comes later.
  best-AtMost :
      (b : Package) (ps : List Package) (n : ℕ)
      → length (best b (keep (holds file) ps)).dir ≤ n
      → AtMost n ps
  unfolding best
  best-AtMost b [] n h = tt
  best-AtMost b (p ∷ ps) n h = elim (Bool-cases (holds file p)) [
    | inr e ↦
        let k : length (best b (keep (holds file) ps)).dir ≤ n = rw e at h in
        (clash p n e, best-AtMost b ps n k)
    | inl e ↦
        let k : length (best (better b p) (keep (holds file) ps)).dir ≤ n = rw e at h in
        (
          λ t. omega (arith, best-ge (better b p) (keep (holds file) ps), better-ge_right b p),
          best-AtMost (better b p) ps n k,
        )
  ]

  longest-Owns : (ps : List Package) → Owns file ps (longest none (keep (holds file) ps))
  unfolding longest
  longest-Owns [] = tt
  longest-Owns (p ∷ ps) = elim (Bool-cases (holds file p)) [
    | inl e ↦ rw e (
        rw (longest-best p (keep (holds file) ps)) (
          best-holds p ps e,
          ((λ h. best-ge p (keep (holds file) ps)), best-AtMost p ps _ (omega arith)),
        ))
    | inr e ↦ rw e (extend (longest none (keep (holds file) ps)) e (longest-Owns ps))
  ]
    where
      extend : (o : Option Package) → holds file p ≡ false → Owns file ps o → Owns file (p ∷ ps) o
      extend none e h = (e, h)
      extend (some q) e (a, b) = (a, (clash p (length q.dir) e, b))

-- A file belongs to the package with the longest dir that holds it, and to none only when no
-- package's dir does.
pub owner-Owns : (pkgs : List Package) (file : Text) → Owns file pkgs (owner pkgs file)
unfolding owner
owner-Owns pkgs file = longest-Owns file pkgs

Reach-mono :
    {next : Text → Names} {a b : Names} {x : Text}
    → ((y : Text) → mem_text y a ≡ true → mem_text y b ≡ true)
    → Reach next a x
    → Reach next b x
Reach-mono f (start h) = start (f _ h)
Reach-mono f (step r h) = step (Reach-mono f r) h

module _ (pkgs : List Package) (cfg : TestConfig) where
  select_loop-global :
      (direct : Names) (files : List Text) (f : Text)
      → first_global pkgs cfg files ≡ some f
      → select_loop pkgs cfg direct files ≡ everything pkgs f
  unfolding select_loop first_global
  select_loop-global direct [] f h = cc
  select_loop-global direct (g ∷ files) f h = elim (Effect-cases pkgs cfg g) [
    | inl (e, r) ↦ rw (e, select_loop) (ap (everything pkgs) (same (rw (r, first_global) at h)))
    | inr (inl (e, r, c)) ↦
        rw (e, select_loop) (select_loop-global direct files f (rw (r, first_global) at h))
    | inr (inr (n, e, r, c)) ↦
        rw (e, select_loop)
          (select_loop-global (insert n direct) files f (rw (r, first_global) at h))
  ]
    where
      same : some g ≡ some f → g ≡ f
      same q = cc

  -- The names that the loop starts from, after the files.
  abbrev gathers : Names → List Text → Text → Bool
  gathers direct files z = mem_text z direct || mem_text z (touched pkgs cfg files)

  select_loop-local :
      (direct : Names) (files : List Text)
      → first_global pkgs cfg files ≡ none
      → (d : Names) × ((z : Text) → mem_text z d ≡ gathers direct files z)
        × (select_loop pkgs cfg direct files
            ≡ record { names = with_dependents pkgs d; everything_because = none })
  unfolding select_loop first_global touched mem_text
  select_loop-local direct [] h = (direct, λ z. ground arith, refl)
  select_loop-local direct (g ∷ files) h = elim (Effect-cases pkgs cfg g) [
    | inl (e, r) ↦ absurd (clashes (rw (r, first_global) at h))
    | inr (inl (e, r, c)) ↦
        rw (e, c, select_loop, touched) (select_loop-local direct files (rw (r, first_global) at h))
    | inr (inr (n, e, r, c)) ↦
        rw (e, c, select_loop, touched)
          (added n (select_loop-local (insert n direct) files (rw (r, first_global) at h)))
  ]
    where
      clashes : some g ≡ none → ⊥
      clashes q = cc

      added :
          (n : Text)
          → (d : Names) × ((z : Text) → mem_text z d ≡ gathers (insert n direct) files z)
            × (select_loop pkgs cfg (insert n direct) files
                ≡ record { names = with_dependents pkgs d; everything_because = none })
          → (d : Names) × ((z : Text)
              → mem_text z d
                ≡ (mem_text z direct || (text_eq n z || mem_text z (touched pkgs cfg files))))
            × (select_loop pkgs cfg (insert n direct) files
                ≡ record { names = with_dependents pkgs d; everything_because = none })
      added n (d, m, q) = (d, λ z. ground (arith, m z, mem-insert z n direct), q)

-- A file whose change reaches the whole workspace (a declared input, or one not ignored that is build-wide or
-- that no package owns) selects every package, and the first such file is the reason given.
pub select-global :
    (pkgs : List Package) (changed : BTreeSet) (cfg : TestConfig) (f : Text)
    → first_global pkgs cfg changed ≡ some f
    → ((select pkgs changed cfg).everything_because ≡ some f)
      × ((x : Text) → mem_text x (select pkgs changed cfg).names ≡ mem_text x (names_of pkgs))
unfolding select everything
select-global pkgs changed cfg f h =
    rw (select_loop-global pkgs cfg [] changed f h) (refl, λ x. mem-from_list x (names_of pkgs))

-- Where no changed file reaches the whole workspace (none is a declared input, and none that is not ignored is
-- build-wide or outside every package), exactly the packages that a changed file counts for are selected, with
-- every package that depends on one of them through any number of others. A file counts for the package that
-- owns it, unless the file is ignored, or the package has an allow-list that does not name it and it is not the
-- package's own manifest.
pub select-local :
    (pkgs : List Package) (changed : BTreeSet) (cfg : TestConfig)
    → first_global pkgs cfg changed ≡ none
    → ((select pkgs changed cfg).everything_because ≡ none)
      × ((x : Text)
          → (mem_text x (select pkgs changed cfg).names ≡ true)
            ↔ Reach (dependents_of pkgs) (touched pkgs cfg changed) x)
unfolding select mem_text
select-local pkgs changed cfg h =
    let (d, m, q) = select_loop-local pkgs cfg [] changed h in
    rw q (
      refl,
      λ x. (
        λ t. Reach-mono (λ y k. sym (m y) ∙ k) (((with_dependents_lem pkgs d).1 x).0 t),
        λ r. ((with_dependents_lem pkgs d).1 x).1 (Reach-mono (λ y k. m y ∙ k) r),
      ),
    )
