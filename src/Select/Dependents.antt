-- ===== src/Select/Dependents.antt =====
-- `Package` and `with_dependents` of cargo-soothfast/src/test/select.rs.
use soothfast.Base.{
  ℕ, zero, suc, ◌+◌, ◌≡◌, refl, sym, ap, ◌∙◌, ◌⊎◌, inl, inr, Bool-cases, true, false, List, [], ◌∷◌,
  ◌++◌, Option, none, some, if◌then◌else◌, Text, mem_text, text_eq, text_eq_iff, length, append-nil,
  append_assoc,
}
use soothfast.Base.BTreeMap.{BTreeMap, get, insert as map_insert, get-insert}
use soothfast.Base.BTreeSet.{BTreeSet, insert}

pub record Package : Type 0 where
  pub name : Text
  pub dir : Text
  pub manifest_dir : Text
  pub deps : List Text

abbrev pub or_default : Option (List Text) → List Text
or_default none = []
or_default (some ts) = ts

-- `dependents.entry(d).or_default().push(name)` for each dependency of one package.
unfoldable pub add_deps : Text → List Text → BTreeMap (List Text) → BTreeMap (List Text)
add_deps name [] m = m
add_deps name (d ∷ ds) m = add_deps name ds (map_insert d (or_default (get d m) ++ name ∷ []) m)

unfoldable pub dependents : List Package → BTreeMap (List Text) → BTreeMap (List Text)
unfolding add_deps
dependents [] m = m
dependents (p ∷ ps) m = dependents ps (add_deps p.name p.deps m)

-- The inner loop: a name not seen before is marked and queued. The head of the queue is its end.
unfoldable pub visit : List Text → BTreeSet × List Text → BTreeSet × List Text
visit [] s = s
visit (d ∷ ds) (seen, queue) =
    if mem_text d seen then visit ds (seen, queue) else visit ds (insert d seen, d ∷ queue)

-- `while let Some(name) = queue.pop()`; none when the fuel runs out.
unfoldable pub close : ℕ → BTreeMap (List Text) → BTreeSet × List Text → Option BTreeSet
close zero deps s = none
close (suc fuel) deps (seen, []) = some seen
close (suc fuel) deps (seen, name ∷ queue) =
    close fuel deps (visit (or_default (get name deps)) (seen, queue))

-- `direct.into_iter().collect()`, the last name on top.
unfoldable pub stack : List Text → List Text → List Text
stack [] queue = queue
stack (n ∷ ns) queue = stack ns (n ∷ queue)

-- A name is queued once at most, so this many rounds are enough.
abbrev pub rounds : List Package → BTreeSet → ℕ
rounds pkgs direct = suc (length direct + length pkgs)

abbrev pub or_empty : Option BTreeSet → BTreeSet
or_empty none = []
or_empty (some s) = s

unfoldable pub with_dependents : List Package → BTreeSet → BTreeSet
with_dependents pkgs direct =
    or_empty (close (rounds pkgs direct) (dependents pkgs []) (direct, stack direct []))

-- Every package that declares a dependency on `n`, once for each such line, in order.
abbrev pub users : Text → Text → List Text → List Text
users n name [] = []
users n name (d ∷ ds) = if text_eq d n then name ∷ users n name ds else users n name ds

abbrev pub all_users : Text → List Package → List Text
all_users n [] = []
all_users n (p ∷ ps) = users n p.name p.deps ++ all_users n ps

get-add_deps :
    (n name : Text) (ds : List Text) (m : BTreeMap (List Text))
    → or_default (get n (add_deps name ds m)) ≡ or_default (get n m) ++ users n name ds
unfolding add_deps
get-add_deps n name [] m = sym (append-nil _)
get-add_deps n name (d ∷ ds) m =
    get-add_deps n name ds (map_insert d (or_default (get d m) ++ name ∷ []) m)
    ∙ rw (get-insert d n (or_default (get d m) ++ name ∷ []) m) (by_key (Bool-cases (text_eq d n)))
  where
    by_key :
        (text_eq d n ≡ true) ⊎ (text_eq d n ≡ false)
        → or_default (if text_eq d n then some (or_default (get d m) ++ name ∷ []) else get n m)
            ++ users n name ds
          ≡ or_default (get n m) ++ users n name (d ∷ ds)
    by_key (inl e) =
        let same : d ≡ n = (text_eq_iff d n).0 e in
        rw e (rw same (append_assoc (or_default (get n m)) (name ∷ []) (users n name ds)))
    by_key (inr e) = rw e refl

-- What the map holds under a name.
pub get-dependents :
    (n : Text) (ps : List Package) (m : BTreeMap (List Text))
    → or_default (get n (dependents ps m)) ≡ or_default (get n m) ++ all_users n ps
unfolding dependents
get-dependents n [] m = sym (append-nil _)
get-dependents n (p ∷ ps) m =
    get-dependents n ps (add_deps p.name p.deps m)
    ∙ ap (λ t. t ++ all_users n ps) (get-add_deps n p.name p.deps m)
    ∙ append_assoc (or_default (get n m)) (users n p.name p.deps) (all_users n ps)
