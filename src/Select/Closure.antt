-- ===== src/Select/Closure.antt =====
-- The loop of `with_dependents`, and the packages that can be reached by dependencies.
use soothfast.Base.{
  ℕ, zero, suc, ◌+◌, ◌<◌, ◌≡◌, ◌↔◌, refl, sym, ap, fun_ext, ◌∙◌, inl, inr, Bool-cases, true, false,
  not, ◌||◌, List, [], ◌∷◌, ◌++◌, map, Option, none, some, arith, Text, mem_text, text_eq,
  text_eq_iff, length, length-map, length-keep-le,
}
use mathlib.Core.Path.{subst}
use soothfast.Base.BTreeMap.{BTreeMap, get}
use soothfast.Base.BTreeSet.{BTreeSet}
use soothfast.Select.Dependents.{
  Package, or_default, dependents, visit, close, stack, rounds, or_empty, with_dependents, users,
  all_users, get-dependents,
}
use soothfast.Select.Visit.{Names, unseen, mem-visit, visit-measure}

-- A direct name, or a name that depends on one reached before.
pub data Reach (next : Text → Names) (direct : Names) : Text → Type 0 where
  start : {n : Text} → mem_text n direct ≡ true → Reach next direct n
  step : {n m : Text} → Reach next direct n → mem_text m (next n) ≡ true → Reach next direct m

module _ (deps : BTreeMap Names) (direct all : Names) where
  abbrev next : Text → Names
  next n = or_default (get n deps)

  record Inv (fuel : ℕ) (seen : BTreeSet) (queue : Names) : Type 0 where
    queued : (x : Text) → mem_text x queue ≡ true → mem_text x seen ≡ true
    closed :
        (x y : Text)
        → mem_text x seen ≡ true
        → mem_text x queue ≡ false
        → mem_text y (next x) ≡ true
        → mem_text y seen ≡ true
    sound : (x : Text) → mem_text x seen ≡ true → Reach next direct x
    begun : (x : Text) → mem_text x direct ≡ true → mem_text x seen ≡ true
    enough : length queue + unseen all seen < fuel

  Inv-visit :
      (fuel : ℕ) (seen : BTreeSet) (name : Text) (queue : Names)
      → ((x y : Text) → mem_text y (next x) ≡ true → mem_text y all ≡ true)
      → Inv (suc fuel) seen (name ∷ queue)
      → Inv fuel (visit (next name) (seen, queue)).0 (visit (next name) (seen, queue)).1
  unfolding mem_text
  Inv-visit fuel seen name queue inside i = record {
    queued = λ x h. ground (arith, mem-visit x (next name) seen queue, i.queued x);
    closed = λ x y h q m. ground (
      arith,
      mem-visit x (next name) seen queue,
      mem-visit y (next name) seen queue,
      i.closed x y,
      text_eq_iff name x,
    );
    sound = λ x h. elim (Bool-cases (mem_text x seen)) [
      | inl e ↦ i.sound x e
      | inr e ↦
          step (i.sound name (i.queued name (ground (arith, text_eq_iff name name))))
            (ground (arith, mem-visit x (next name) seen queue))
    ];
    begun = λ x h. ground (arith, mem-visit x (next name) seen queue, i.begun x);
    enough = omega (arith, visit-measure all (next name) seen queue (inside name), i.enough);
  }

  -- The set that the loop returns.
  abbrev Closes : Option BTreeSet → Type 0
  Closes none = ⊥
  Closes (some r) = (x : Text) → (mem_text x r ≡ true) ↔ Reach next direct x

  complete :
      (seen : BTreeSet) (fuel : ℕ) {x : Text}
      → Inv fuel seen []
      → Reach next direct x
      → mem_text x seen ≡ true
  unfolding mem_text
  complete seen fuel i (start h) = i.begun _ h
  complete seen fuel i (step {n} {m} r h) = i.closed n m (complete seen fuel i r) refl h

  close-Closes :
      (fuel : ℕ) (seen : BTreeSet) (queue : Names)
      → ((x y : Text) → mem_text y (next x) ≡ true → mem_text y all ≡ true)
      → Inv fuel seen queue
      → Closes (close fuel deps (seen, queue))
  unfolding close
  close-Closes zero seen queue inside i = absurd (omega (arith, i.enough))
  close-Closes (suc fuel) seen [] inside i = λ x. (i.sound x, complete seen (suc fuel) i)
  close-Closes (suc fuel) seen (name ∷ queue) inside i =
      close-Closes fuel _ _ inside (Inv-visit fuel seen name queue inside i)

mem-stack :
    (x : Text) (ns queue : Names)
    → mem_text x (stack ns queue) ≡ (mem_text x ns || mem_text x queue)
unfolding mem_text stack
mem-stack x [] queue = refl
mem-stack x (n ∷ ns) queue = ground (arith, mem-stack x ns (n ∷ queue))

length-stack : (ns queue : Names) → length (stack ns queue) ≡ length ns + length queue
unfolding stack
length-stack [] queue = omega arith
length-stack (n ∷ ns) queue = omega (arith, length-stack ns (n ∷ queue))

abbrev pub names_of : List Package → Names
names_of = map λ (p : Package). p.name

mem-append : (x : Text) (s t : Names) → mem_text x (s ++ t) ≡ (mem_text x s || mem_text x t)
unfolding mem_text
mem-append x [] t = refl
mem-append x (n ∷ s) t = ground (arith, mem-append x s t)

users-name :
    (n name x : Text) (ds : Names) → mem_text x (users n name ds) ≡ true → text_eq name x ≡ true
unfolding mem_text
users-name n name x [] h = cc
users-name n name x (d ∷ ds) h = ground (arith, users-name n name x ds)

pub all_users-names :
    (n x : Text) (ps : List Package)
    → mem_text x (all_users n ps) ≡ true
    → mem_text x (names_of ps) ≡ true
unfolding mem_text
all_users-names n x [] h = cc
all_users-names n x (p ∷ ps) h = ground (
  arith,
  mem-append x (users n p.name p.deps) (all_users n ps),
  users-name n p.name x p.deps,
  all_users-names n x ps,
)

-- The names of the packages that declare a dependency on a package.
abbrev pub dependents_of : List Package → Text → Names
dependents_of pkgs n = all_users n pkgs

next-dependents : (pkgs : List Package) → next (dependents pkgs []) [] [] ≡ dependents_of pkgs
unfolding get
next-dependents pkgs = fun_ext λ n. get-dependents n pkgs []

start-Inv :
    (pkgs : List Package) (direct : Names)
    → Inv (dependents pkgs []) direct (names_of pkgs) (rounds pkgs direct) direct (stack direct [])
unfolding mem_text
start-Inv pkgs direct = record {
  queued = λ x h. ground (arith, mem-stack x direct []);
  closed = λ x y h q m. ground (arith, mem-stack x direct []);
  sound = λ x h. start h;
  begun = λ x h. h;
  enough = omega (
    arith,
    length-stack direct [],
    length-keep-le (λ n. not (mem_text n direct)) (names_of pkgs),
    length-map (λ (p : Package). p.name) pkgs,
  );
}

close-with_dependents :
    (pkgs : List Package) (direct : Names)
    → Closes
        (dependents pkgs [])
        direct
        (names_of pkgs)
        (close (rounds pkgs direct) (dependents pkgs []) (direct, stack direct []))
close-with_dependents pkgs direct =
    close-Closes (dependents pkgs []) direct (names_of pkgs) (rounds pkgs direct) direct
      (stack direct []) inside (start-Inv pkgs direct)
  where
    inside :
        (x y : Text)
        → mem_text y (or_default (get x (dependents pkgs []))) ≡ true
        → mem_text y (names_of pkgs) ≡ true
    inside x y h =
        all_users-names x y pkgs (ap (λ f. mem_text y (f x)) (sym (next-dependents pkgs)) ∙ h)

ends :
    (deps : BTreeMap Names) (direct all : Names) (r : Option BTreeSet)
    → Closes deps direct all r
    → (r ≡ some (or_empty r))
      × ((x : Text) → (mem_text x (or_empty r) ≡ true) ↔ Reach (next deps direct all) direct x)
ends deps direct all none c = absurd c
ends deps direct all (some s) c = (refl, c)

-- The loop ends within its rounds, and its result holds a name exactly when the name is direct or a
-- package that depends, through any number of others, on a direct one.
pub with_dependents_lem :
    (pkgs : List Package) (direct : Names)
    → (close (rounds pkgs direct) (dependents pkgs []) (direct, stack direct [])
        ≡ some (with_dependents pkgs direct))
      × ((x : Text)
          → (mem_text x (with_dependents pkgs direct) ≡ true) ↔ Reach (dependents_of pkgs) direct x)
unfolding with_dependents
with_dependents_lem pkgs direct =
    subst
      (λ f.
        (close (rounds pkgs direct) (dependents pkgs []) (direct, stack direct [])
          ≡ some (with_dependents pkgs direct))
        × ((x : Text) → (mem_text x (with_dependents pkgs direct) ≡ true) ↔ Reach f direct x))
      (next-dependents pkgs)
      (ends (dependents pkgs []) direct (names_of pkgs) _ (close-with_dependents pkgs direct))
