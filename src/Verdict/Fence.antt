-- ===== src/Verdict/Fence.antt =====
-- The output of a job in the code fence that `render` puts it in.
use soothfast.Base.{
  ℕ, zero, suc, ◌≡◌, refl, Bool, true, false, ◌&&◌, ◌||◌, [], ◌∷◌, ◌++◌, arith, ◌==◌, ◌⊎◌, Text,
  codes, starts_with, Bool-cases, inl, inr,
}
use soothfast.Base.Lines.{newline}
use soothfast.Base.Format.{replace_from}
use soothfast.Verdict.Render.{fence, fenced}

abbrev is_blank : ℕ → Bool
is_blank c = c == b' ' || c == 9

-- Whether some line of a text is three backticks behind blanks; the flag says that the text starts
-- in the leading blanks of a line.
unfoldable pub closes_fence : Bool → Text → Bool
closes_fence blank [] = false
closes_fence blank (c ∷ s) =
    (blank && starts_with (c ∷ s) fence) || closes_fence (c == newline || (blank && is_blank c)) s

abbrev spaced : Text
spaced = codes "` ` `"

starts_one :
    (s : Text)
    → starts_with (replace_from 0 fence spaced s) (codes "`") ≡ true
    → starts_with s (codes "`") ≡ true
unfolding starts_with replace_from
starts_one [] h = h
starts_one (c ∷ s) h = ground arith

starts_two :
    (s : Text)
    → starts_with (replace_from 0 fence spaced s) (codes "``") ≡ true
    → starts_with s (codes "``") ≡ true
unfolding starts_with replace_from
starts_two [] h = h
starts_two (c ∷ s) h = ground (arith, starts_one s)

starts_three :
    (c : ℕ) (s : Text)
    → starts_with (c ∷ s) fence ≡ false
    → starts_with (c ∷ replace_from 0 fence spaced s) fence ≡ false
unfolding starts_with
starts_three c s h = ground (arith, starts_two s)

closes_fence-spaced :
    (blank : Bool) (t : Text) → closes_fence blank (spaced ++ t) ≡ closes_fence false t
unfolding closes_fence starts_with
closes_fence-spaced blank t = ground arith

-- In the middle of a replaced run the text is never at the start of a line.
replace_from-closed :
    (k : ℕ) (blank : Bool) (s : Text)
    → (k ≡ 0) ⊎ (blank ≡ false)
    → closes_fence blank (replace_from k fence spaced s) ≡ false
unfolding replace_from closes_fence
replace_from-closed k blank [] h = refl
replace_from-closed (suc k) blank (c ∷ s) h = replace_from-closed k blank s (inr (ground arith))
replace_from-closed zero blank (c ∷ s) h = elim (Bool-cases (starts_with (c ∷ s) fence)) [
  | inl e ↦
      rw (e, replace_from)
        (ground (
          arith,
          closes_fence-spaced blank (replace_from 2 fence spaced s),
          replace_from-closed 2 false s (inr refl),
        ))
  | inr e ↦
      rw (e, replace_from)
        (ground (
          arith,
          starts_three c s e,
          replace_from-closed 0 (c == newline || (blank && is_blank c)) s (inl refl),
        ))
]

-- No line of an output as it stands in the comment is a closing fence, with or without blanks in front.
pub fenced-closed : (t : Text) → closes_fence true (fenced t) ≡ false
unfolding fenced
fenced-closed t = replace_from-closed 0 true t (inl refl)
