-- ===== src/Base/Parse.antt =====
-- The `str` methods that readers of output lines call: whitespace, trimming, splitting, `parse::<u64>`.
use soothfast.Base.Chars.{Text}
use soothfast.Base.Tests.{◌==◌, leb, ltb, if◌then◌else◌}
use soothfast.Base.Lines.{push_front}
use Prim.Native.Nat.{ℕ, ◌+◌, ◌-◌, ◌*◌, ◌^◌, ◌<◌}
use mathlib.Core.Path.{◌≡◌}
use mathlib.Core.Bool.{Bool, true, false, ◌&&◌, ◌||◌}
use mathlib.Core.List.{List, [], ◌∷◌}
use mathlib.Core.Option.{Option, none, some}
use native.Mathlib.Omega.{arith}

-- `char::is_whitespace`
abbrev pub is_whitespace : ℕ → Bool
is_whitespace c =
    (leb 9 c && leb c 13)
    || c == 32
    || c == 0x85
    || c == 0xa0
    || c == 0x1680
    || (leb 0x2000 c && leb c 0x200a)
    || c == 0x2028
    || c == 0x2029
    || c == 0x202f
    || c == 0x205f
    || c == 0x3000

abbrev pub is_empty {ℓ} : {A : Type ℓ} → List A → Bool
is_empty [] = true
is_empty (_ ∷ _) = false

unfoldable pub trim_start : Text → Text
trim_start [] = []
trim_start (c ∷ s) = if is_whitespace c then trim_start s else c ∷ s

unfoldable pub trim_end : Text → Text
trim_end [] = []
trim_end (c ∷ s) =
    let rest = trim_end s in if is_empty rest && is_whitespace c then [] else c ∷ rest

abbrev pub trim : Text → Text
trim s = trim_end (trim_start s)

-- `s.trim_start_matches(c)` for a character
unfoldable pub trim_start_matches : Text → ℕ → Text
trim_start_matches [] d = []
trim_start_matches (c ∷ s) d = if c == d then trim_start_matches s d else c ∷ s

abbrev begins_blank : Text → Bool
begins_blank [] = true
begins_blank (c ∷ s) = is_whitespace c

-- `s.split_whitespace()`
unfoldable pub split_whitespace : Text → List Text
split_whitespace [] = []
split_whitespace (c ∷ s) =
    let rest = split_whitespace s in
    if is_whitespace c then rest else if begins_blank s then (c ∷ []) ∷ rest else push_front c rest

-- `s.split(c)` for a character
unfoldable pub split : Text → ℕ → List Text
split [] d = [] ∷ []
split (c ∷ s) d = let rest = split s d in if c == d then [] ∷ rest else push_front c rest

abbrev pub u64_mod : ℕ
u64_mod = 2 ^ 64

-- Digits with the value so far; none at another character or past the largest u64.
unfoldable pub parse_digits : Text → ℕ → Option ℕ
parse_digits [] n = some n
parse_digits (c ∷ s) n =
    let next = n * 10 + (c - b'0') in
    if leb b'0' c && leb c b'9' && ltb next u64_mod then parse_digits s next else none

-- `s.parse::<u64>().ok()`
unfoldable pub parse_u64 : Text → Option ℕ
unfolding parse_digits
parse_u64 [] = none
parse_u64 (c ∷ []) = if c == b'+' then none else parse_digits (c ∷ []) 0
parse_u64 (c ∷ d ∷ s) = if c == b'+' then parse_digits (d ∷ s) 0 else parse_digits (c ∷ d ∷ s) 0

parse_digits-lt : (s : Text) (n v : ℕ) → n < u64_mod → parse_digits s n ≡ some v → v < u64_mod
unfolding parse_digits
parse_digits-lt [] n v h e = ground arith
parse_digits-lt (c ∷ s) n v h e = ground (arith, parse_digits-lt s (n * 10 + (c - b'0')) v)

-- A number that is read fits its type.
pub parse_u64-lt : (s : Text) (v : ℕ) → parse_u64 s ≡ some v → v < u64_mod
unfolding parse_u64
parse_u64-lt [] v e = cc
parse_u64-lt (c ∷ []) v e = unfold_one (c == b'+') e
  where
    unfold_one : (b : Bool) → (if b then none else parse_digits (c ∷ []) 0) ≡ some v → v < u64_mod
    unfold_one true h = cc
    unfold_one false h = parse_digits-lt (c ∷ []) 0 v (omega arith) h
parse_u64-lt (c ∷ d ∷ s) v e = signed (c == b'+') e
  where
    signed :
        (b : Bool)
        → (if b then parse_digits (d ∷ s) 0 else parse_digits (c ∷ d ∷ s) 0) ≡ some v
        → v < u64_mod
    signed true h = parse_digits-lt (d ∷ s) 0 v (omega arith) h
    signed false h = parse_digits-lt (c ∷ d ∷ s) 0 v (omega arith) h
