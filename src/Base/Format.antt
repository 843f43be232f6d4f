-- ===== src/Base/Format.antt =====
-- `format!` of numbers, `concat`, and `str::replace`.
use soothfast.Base.Chars.{Text, starts_with}
use soothfast.Base.Lists.{length}
use soothfast.Base.Tests.{ltb, if◌then◌else◌, Bool-cases}
use soothfast.Base.Lines.{begins}
use soothfast.Base.Parse.{is_empty, parse_u64, parse_digits, u64_mod}
use Prim.Native.Nat.{ℕ, zero, suc, ◌+◌, ◌-◌, ◌*◌, ◌/◌, ◌%◌, ◌<◌}
use mathlib.Core.Path.{◌≡◌, ◌∙◌, refl}
use mathlib.Core.Logic.{inl, inr}
use mathlib.Core.Bool.{true, false}
use mathlib.Core.Option.{some}
use mathlib.Core.List.{List, [], ◌∷◌, ◌++◌}
use native.Mathlib.Omega.{arith}

unfoldable pub concat : List Text → Text
concat [] = []
concat (t ∷ ts) = t ++ concat ts

-- The digits of `n` in front of `out`. A digit a round: fuel above `n` is enough.
unfoldable pub show_from : ℕ → ℕ → Text → Text
show_from zero n out = out
show_from (suc f) n out =
    let longer = (b'0' + n % 10) ∷ out in
    let rest = show_from f (n / 10) longer in if ltb n 10 then longer else rest

-- `{n}` of a format string
unfoldable pub display : ℕ → Text
unfolding show_from
display n = show_from (suc n) n []

parse_digits-show_from :
    (f n : ℕ) (out : Text)
    → n < f
    → n < u64_mod
    → parse_digits (show_from f n out) 0 ≡ parse_digits out n
unfolding show_from
parse_digits-show_from zero n out h u = absurd (omega arith)
parse_digits-show_from (suc f) n out h u = elim (Bool-cases (ltb n 10)) [
  | inl e ↦ rw e (digit 0 (ground arith))
  | inr e ↦ rw e (
      parse_digits-show_from f (n / 10) ((b'0' + n % 10) ∷ out) (ground arith) (omega arith)
      ∙ digit (n / 10) (omega arith))
]
  where
    digit :
        (m : ℕ) → m * 10 + n % 10 ≡ n → parse_digits ((b'0' + n % 10) ∷ out) m ≡ parse_digits out n
    digit m e =
        let v : m * 10 + (b'0' + n % 10 - b'0') ≡ n = omega arith in
        unfold parse_digits in rw v (ground arith)

begins-show_from :
    (f n : ℕ) (out : Text) → begins b'+' out ≡ false → begins b'+' (show_from f n out) ≡ false
unfolding show_from
begins-show_from zero n out h = h
begins-show_from (suc f) n out h =
    ground (arith, begins-show_from f (n / 10) ((b'0' + n % 10) ∷ out))

filled-show_from :
    (f n : ℕ) (out : Text) → is_empty out ≡ false → is_empty (show_from f n out) ≡ false
unfolding show_from
filled-show_from zero n out h = h
filled-show_from (suc f) n out h =
    ground (arith, filled-show_from f (n / 10) ((b'0' + n % 10) ∷ out) refl)

filled-display : (n : ℕ) → is_empty (display n) ≡ false
unfolding display show_from
filled-display n = ground (arith, filled-show_from n (n / 10) ((b'0' + n % 10) ∷ []) refl)

parse_u64-unsigned :
    (s : Text) (n : ℕ)
    → begins b'+' s ≡ false
    → is_empty s ≡ false
    → parse_digits s 0 ≡ some n
    → parse_u64 s ≡ some n
unfolding parse_u64
parse_u64-unsigned [] n b l h = cc
parse_u64-unsigned (c ∷ []) n b l h = rw b h
parse_u64-unsigned (c ∷ d ∷ s) n b l h = rw b h

-- A number is read back from its digits.
pub parse_u64-display : (n : ℕ) → n < u64_mod → parse_u64 (display n) ≡ some n
parse_u64-display n h =
    parse_u64-unsigned (display n) n (unfold display in begins-show_from (suc n) n [] refl)
      (filled-display n)
      (unfold display in
        parse_digits-show_from (suc n) n [] (omega arith) h ∙ unfold parse_digits in refl)

-- `replace(from, to)`, with the number of characters of a match still to be passed over.
unfoldable pub replace_from : ℕ → Text → Text → Text → Text
replace_from k from to [] = []
replace_from (suc k) from to (c ∷ s) = replace_from k from to s
replace_from zero from to (c ∷ s) = elim (starts_with (c ∷ s) from) [
  | true ↦ to ++ replace_from (length from - 1) from to s
  | false ↦ c ∷ replace_from zero from to s
]

abbrev pub replace : Text → Text → Text → Text
replace from to s = replace_from 0 from to s
