-- ===== src/Select/Visit.antt =====
-- One visit of `with_dependents`: which names are seen and queued, and how many are left.
use soothfast.Base.{
  ℕ, ◌+◌, ◌≤◌, ◌≡◌, inl, inr, Bool-cases, true, false, not, ◌&&◌, ◌||◌, List, [], ◌∷◌, arith, Text,
  mem_text, text_eq_iff, length, keep,
}
use soothfast.Base.BTreeSet.{BTreeSet, insert, mem-insert}
use soothfast.Select.Dependents.{visit}

abbrev pub Names : Type 0
Names = List Text

-- How many of the names `all` are not yet seen.
abbrev pub unseen : Names → BTreeSet → ℕ
unseen all seen = length (keep (λ n. not (mem_text n seen)) all)

pub mem-visit :
    (x : Text) (ds : Names) (seen : BTreeSet) (queue : Names)
    → (mem_text x (visit ds (seen, queue)).0 ≡ (mem_text x seen || mem_text x ds))
      × (mem_text x (visit ds (seen, queue)).1
          ≡ (mem_text x queue || (mem_text x ds && not (mem_text x seen))))
unfolding visit mem_text
mem-visit x [] seen queue = ground arith
mem-visit x (d ∷ ds) seen queue = elim (Bool-cases (mem_text d seen)) [
  | inl e ↦ rw (e, visit) (ground (arith, mem-visit x ds seen queue, text_eq_iff d x))
  | inr e ↦
      rw (e, visit)
        (ground
          (arith, mem-visit x ds (insert d seen) (d ∷ queue), mem-insert x d seen, text_eq_iff d x))
]

unseen-insert-le :
    (d : Text) (all : Names) (seen : BTreeSet) → unseen all (insert d seen) ≤ unseen all seen
unseen-insert-le d [] seen = omega arith
unseen-insert-le d (n ∷ all) seen = ground (arith, unseen-insert-le d all seen, mem-insert n d seen)

unseen-insert :
    (d : Text) (all : Names) (seen : BTreeSet)
    → mem_text d all ≡ true
    → mem_text d seen ≡ false
    → unseen all (insert d seen) + 1 ≤ unseen all seen
unfolding mem_text
unseen-insert d [] seen h e = cc
unseen-insert d (n ∷ all) seen h e = ground (
  arith,
  unseen-insert d all seen,
  unseen-insert-le d all seen,
  mem-insert n d seen,
  text_eq_iff n d,
  text_eq_iff d n,
)

pub visit-measure :
    (all ds : Names) (seen : BTreeSet) (queue : Names)
    → ((y : Text) → mem_text y ds ≡ true → mem_text y all ≡ true)
    → length (visit ds (seen, queue)).1 + unseen all (visit ds (seen, queue)).0
      ≤ length queue + unseen all seen
unfolding visit
visit-measure all [] seen queue h = omega arith
visit-measure all (d ∷ ds) seen queue h = elim (Bool-cases (mem_text d seen)) [
  | inl e ↦ rw (e, visit) (visit-measure all ds seen queue later)
  | inr e ↦
      rw (e, visit)
        (omega (
          arith,
          visit-measure all ds (insert d seen) (d ∷ queue) later,
          unseen-insert d all seen here e,
        ))
]
  where
    later : (y : Text) → mem_text y ds ≡ true → mem_text y all ≡ true
    later y m = h y (unfold mem_text in ground arith)

    here : mem_text d all ≡ true
    here = h d (unfold mem_text in ground (arith, text_eq_iff d d))
