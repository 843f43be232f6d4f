-- ===== src/Textdiff/Lcs.antt =====
-- How many lines two lists have in common, as a longest common subsequence, and how that number changes
-- with one line more.
use soothfast.Base.{
  ℕ, suc, ◌+◌, ◌≤◌, ◌≡◌, refl, max, List, [], ◌∷◌, ◌++◌, arith, if◌then◌else◌, Text, text_eq,
  text_eq_refl, length,
}
use soothfast.Textdiff.{Op, keep, del, add}
use soothfast.Textdiff.Script.{olds, news}

-- With `a` in front of `old`, whose number is `k`.
unfoldable pub lcs_front : Text → (List Text → ℕ) → List Text → ℕ
lcs_front a k [] = 0
lcs_front a k (b ∷ new) =
    let rest = lcs_front a k new in if text_eq a b then suc (k new) else max (k (b ∷ new)) rest

unfoldable pub lcs : List Text → List Text → ℕ
unfolding lcs_front
lcs [] new = 0
lcs (a ∷ old) new = lcs_front a (lcs old) new

-- The kept lines of a script.
abbrev pub kept : List Op → ℕ
kept [] = 0
kept (keep l ∷ ops) = suc (kept ops)
kept (del l ∷ ops) = kept ops
kept (add l ∷ ops) = kept ops

abbrev Grows : List Text → Type 0
Grows old =
    (b : Text) (new : List Text)
    → (lcs old new ≤ lcs old (b ∷ new)) × (lcs old (b ∷ new) ≤ suc (lcs old new))

pub lcs-nil : (old : List Text) → lcs old [] ≡ 0
unfolding lcs
lcs-nil [] = refl
lcs-nil (a ∷ old) = refl

module _ (a : Text) (old : List Text) (g : Grows old) where
  lcs-cons_le : (new : List Text) → lcs old new ≤ lcs (a ∷ old) new
  unfolding lcs
  lcs-cons_le [] = omega (arith, lcs-nil old)
  lcs-cons_le (b ∷ new) = ground (arith, g b new)

  lcs-cons_ge : (new : List Text) → lcs (a ∷ old) new ≤ suc (lcs old new)
  unfolding lcs
  lcs-cons_ge [] = omega arith
  lcs-cons_ge (b ∷ new) = ground (arith, g b new, lcs-cons_ge new)

  Grows-cons : Grows (a ∷ old)
  unfolding lcs
  Grows-cons b new = (ground (arith, lcs-cons_ge new), ground (arith, g b new, lcs-cons_le new))

lcs-Grows : (old : List Text) → Grows old
unfolding lcs
lcs-Grows [] b new = (omega arith, omega arith)
lcs-Grows (a ∷ old) b new = Grows-cons a old (lcs-Grows old) b new

-- No script keeps more lines than its two lists have in common.
pub kept-lcs : (ops : List Op) → kept ops ≤ lcs (olds ops) (news ops)
unfolding lcs
kept-lcs [] = omega arith
kept-lcs (keep l ∷ ops) = ground (arith, kept-lcs ops, text_eq_refl l)
kept-lcs (del l ∷ ops) =
    omega (arith, kept-lcs ops, lcs-cons_le l (olds ops) (lcs-Grows (olds ops)) (news ops))
kept-lcs (add l ∷ ops) = omega (arith, kept-lcs ops, lcs-Grows (olds ops) l (news ops))

pub lcs-front : (f old new : List Text) → lcs (f ++ old) (f ++ new) ≡ length f + lcs old new
unfolding lcs
lcs-front [] old new = omega arith
lcs-front (a ∷ f) old new = ground (arith, text_eq_refl a, lcs-front f old new)

pub lcs-le_length : (old new : List Text) → lcs old new ≤ length old
unfolding lcs
lcs-le_length [] new = omega arith
lcs-le_length (a ∷ old) new =
    omega (arith, lcs-cons_ge a old (lcs-Grows old) new, lcs-le_length old new)

lcs-le_length_right : (old new : List Text) → lcs old new ≤ length new
lcs-le_length_right old [] = omega (arith, lcs-nil old)
lcs-le_length_right old (b ∷ new) = omega (arith, lcs-Grows old b new, lcs-le_length_right old new)

lcs_self : (ls : List Text) → lcs ls ls ≡ length ls
unfolding lcs
lcs_self [] = refl
lcs_self (a ∷ ls) = ground (arith, text_eq_refl a, lcs_self ls)

lcs-new_back : (new back : List Text) → lcs back (new ++ back) ≡ length back
lcs-new_back [] back = lcs_self back
lcs-new_back (b ∷ new) back = omega (
  arith,
  lcs-new_back new back,
  lcs-Grows back b (new ++ back),
  lcs-le_length back (b ∷ (new ++ back)),
)

lcs-old_back : (old back : List Text) → lcs (old ++ back) back ≡ length back
lcs-old_back [] back = lcs_self back
lcs-old_back (a ∷ old) back = omega (
  arith,
  lcs-old_back old back,
  lcs-cons_le a (old ++ back) (lcs-Grows (old ++ back)) back,
  lcs-le_length_right (a ∷ (old ++ back)) back,
)

pub lcs-back :
    (old new back : List Text) → lcs (old ++ back) (new ++ back) ≡ lcs old new + length back
unfolding lcs
lcs-back [] new back = omega (arith, lcs-new_back new back)
lcs-back (a ∷ old) [] back = omega (arith, lcs-old_back (a ∷ old) back)
lcs-back (a ∷ old) (b ∷ new) back =
    ground (arith, lcs-back old new back, lcs-back old (b ∷ new) back, lcs-back (a ∷ old) new back)
