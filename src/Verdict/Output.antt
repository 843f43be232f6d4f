-- ===== src/Verdict/Output.antt =====
-- `tail` and `drop_warnings` of cargo-soothfast/src/verdict.rs.
use soothfast.Base.{
  ℕ, ◌-◌, ◌≤◌, ◌≡◌, refl, Bool, true, false, not, ◌&&◌, ◌||◌, List, [], ◌∷◌, arith, if◌then◌else◌,
  Text, codes, join, length, drop, length-drop, starts_with, keep, All,
}
use soothfast.Base.Lines.{lines, newlines, lines-one-line, length-lines-join, begins}
use soothfast.Verdict.Types.{tail_lines}

unfoldable pub tail : Text → Text
tail output = let ls = lines output in join (drop (length ls - tail_lines) ls) (codes "\n")

All-drop {ℓ κ} : {A : Type ℓ} (P : A → Type κ) (n : ℕ) (xs : List A) → All P xs → All P (drop n xs)
All-drop P ℕ.zero xs a = a
All-drop P (ℕ.suc n) [] a = tt
All-drop P (ℕ.suc n) (x ∷ xs) a = All-drop P n xs a.1

-- What is kept has forty lines at most.
pub length-lines-tail : (s : Text) → length (lines (tail s)) ≤ tail_lines
unfolding tail
length-lines-tail s =
    let ls = lines s in
    let k = length ls - tail_lines in
    omega (
      arith,
      length-lines-join (drop k ls) (All-drop (λ l. newlines l ≡ 0) k ls (lines-one-line s)),
      length-drop k ls,
    )

abbrev pub is_warning : Text → Bool
is_warning l = starts_with l (codes "warning:")

abbrev pub is_indented : Text → Bool
is_indented l = begins b' ' l || begins 9 l

-- The loop over the lines, with the flag `in_warning`.
unfoldable pub kept_lines : Bool → List Text → List Text
kept_lines in_warning [] = []
kept_lines in_warning (l ∷ ls) =
    let under = is_warning l || (in_warning && is_indented l) in
    let rest = kept_lines under ls in if under then rest else l ∷ rest

unfoldable pub drop_warnings : Text → Text
unfolding kept_lines
drop_warnings output = join (kept_lines false (lines output)) (codes "\n")

-- A line that starts a block of output and is no warning.
abbrev pub is_head : Text → Bool
is_head l = not (is_warning l) && not (is_indented l)

kept_lines-heads : (b : Bool) (ls : List Text) → keep is_head (kept_lines b ls) ≡ keep is_head ls
unfolding kept_lines
kept_lines-heads b [] = refl
kept_lines-heads b (l ∷ ls) = ground (arith, kept_lines-heads true ls, kept_lines-heads false ls)

kept_lines-no-warning :
    (b : Bool) (ls : List Text) → All (λ l. is_warning l ≡ false) (kept_lines b ls)
unfolding kept_lines
kept_lines-no-warning b [] = tt
kept_lines-no-warning b (l ∷ ls) =
    ground (arith, kept_lines-no-warning true ls, kept_lines-no-warning false ls)

kept_lines-id : (ls : List Text) → All (λ l. is_warning l ≡ false) ls → kept_lines false ls ≡ ls
unfolding kept_lines
kept_lines-id [] a = refl
kept_lines-id (l ∷ ls) a = ground (arith, a.0, kept_lines-id ls a.1)

-- No warning line is kept, every other line that is not indented is kept in its place, and lines
-- without a warning among them are all kept.
pub kept_lines_lem :
    (ls : List Text)
    → All (λ l. is_warning l ≡ false) (kept_lines false ls)
      × (keep is_head (kept_lines false ls) ≡ keep is_head ls)
      × (All (λ l. is_warning l ≡ false) ls → kept_lines false ls ≡ ls)
kept_lines_lem ls = (kept_lines-no-warning false ls, kept_lines-heads false ls, kept_lines-id ls)
