-- ===== src/Glob.antt =====
-- cargo-soothfast/src/glob.rs: path globs over bytes, which stand in a `Text` as characters do. Every
-- recursive call of `go` drops bytes of the pattern, so the recursion is on its structure and needs no fuel.
pub mod Spec
pub mod Sound
mod Tests
use soothfast.Base.{
  ℕ, Bool, true, false, not, ◌&&◌, List, [], ◌∷◌, if◌then◌else◌, ◌==◌, Text, utf8, any,
}
use soothfast.Base.Parse.{is_empty}

abbrev pub slash : ℕ
slash = 47

abbrev pub star : ℕ
star = 42

abbrev pub question : ℕ
question = 63

-- The texts `text[i..]` for `i` in `0..=text.len()`.
abbrev pub suffixes : Text → List Text
suffixes [] = [] ∷ []
suffixes (c ∷ s) = (c ∷ s) ∷ suffixes s

-- The texts `text[i..]` for `i` in `0..=end`, where `end` is the first slash or the length.
abbrev pub segment_suffixes : Text → List Text
segment_suffixes [] = [] ∷ []
segment_suffixes (c ∷ s) = if c == slash then (c ∷ s) ∷ [] else (c ∷ s) ∷ segment_suffixes s

-- `text.first()` passes the test, and the rest of the text goes on to `rest`.
abbrev pub first_then : (ℕ → Bool) → (Text → Bool) → Text → Bool
first_then test rest [] = false
first_then test rest (c ∷ s) = test c && rest s

-- The arms for a pattern that begins with `c` and no `**`, with `go` of the rest of the pattern.
abbrev pub single : ℕ → (Text → Bool) → Text → Bool
single c rest text =
    if c == star
    then any rest (segment_suffixes text)
    else if c == question
    then first_then (λ d. not (d == slash)) rest text
    else first_then (λ d. d == c) rest text

unfoldable pub go : Text → Text → Bool
go [] text = is_empty text
go (c ∷ []) text = single c (go []) text
go (c ∷ d ∷ []) text =
    if c == star && d == star then any (go []) (suffixes text) else single c (go (d ∷ [])) text
go (c ∷ d ∷ e ∷ pat) text =
    if c == star && d == star
    then (if e == slash then any (go pat) (suffixes text) else any (go (e ∷ pat)) (suffixes text))
    else single c (go (d ∷ e ∷ pat)) text

unfoldable pub matches : Text → Text → Bool
unfolding go
matches pattern path = go (utf8 pattern) (utf8 path)
