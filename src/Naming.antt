-- ===== src/Naming.antt =====
-- soothfast-sdk/src/naming.rs: names on the wire as identifiers of a generated client.
pub mod Identifiers
mod Tests
use soothfast.Base.{
  ℕ, ◌+◌, ◌-◌, Bool, true, false, not, ◌&&◌, ◌||◌, List, [], ◌∷◌, ◌++◌, map, if◌then◌else◌, ◌==◌,
  leb, Text, codes,
}
use soothfast.Base.Parse.{is_empty, trim_start_matches}

abbrev pub is_ascii_uppercase : ℕ → Bool
is_ascii_uppercase c = leb b'A' c && leb c b'Z'

abbrev pub is_ascii_lowercase : ℕ → Bool
is_ascii_lowercase c = leb b'a' c && leb c b'z'

abbrev pub is_ascii_digit : ℕ → Bool
is_ascii_digit c = leb b'0' c && leb c b'9'

abbrev pub is_ascii_alphanumeric : ℕ → Bool
is_ascii_alphanumeric c = is_ascii_uppercase c || is_ascii_lowercase c || is_ascii_digit c

abbrev pub to_ascii_lowercase : ℕ → ℕ
to_ascii_lowercase c = if is_ascii_uppercase c then c + 32 else c

abbrev pub to_ascii_uppercase : ℕ → ℕ
to_ascii_uppercase c = if is_ascii_lowercase c then c - 32 else c

abbrev pub underscore : ℕ
underscore = b'_'

-- `out.ends_with('_')`
abbrev pub ends_with_underscore : Text → Bool
ends_with_underscore [] = false
ends_with_underscore (c ∷ []) = c == underscore
ends_with_underscore (c ∷ d ∷ s) = ends_with_underscore (d ∷ s)

abbrev pub push_underscore : Text → Text
push_underscore out = if ends_with_underscore out then out else out ++ underscore ∷ []

-- `s.trim_end_matches('_')`
unfoldable pub trim_end_underscores : Text → Text
trim_end_underscores [] = []
trim_end_underscores (c ∷ s) =
    let rest = trim_end_underscores s in if is_empty rest && c == underscore then [] else c ∷ rest

-- `s.trim_matches('_')`
unfoldable pub trim_underscores : Text → Text
trim_underscores s = trim_end_underscores (trim_start_matches s underscore)

-- One round of the loop of `snake`, with `out` and `prev_lower`.
unfoldable pub snake_step : Text × Bool → ℕ → Text × Bool
snake_step (out, prev_lower) c =
    if is_ascii_uppercase c
    then ((if prev_lower then push_underscore out else out) ++ to_ascii_lowercase c ∷ [], false)
    else if is_ascii_alphanumeric c
    then (out ++ c ∷ [], true)
    else (push_underscore out, false)

unfoldable pub snake_loop : Text × Bool → Text → Text × Bool
snake_loop state [] = state
snake_loop state (c ∷ name) = snake_loop (snake_step state c) name

abbrev pub starts_with_digit : Text → Bool
starts_with_digit [] = false
starts_with_digit (c ∷ s) = is_ascii_digit c

unfoldable pub snake : Text → Text
snake name =
    let trimmed = trim_underscores (snake_loop ([], false) name).0 in
    if is_empty trimmed
    then codes "field"
    else if starts_with_digit trimmed
    then underscore ∷ trimmed
    else trimmed

abbrev pub replaced : ℕ → ℕ
replaced c = if is_ascii_alphanumeric c then c else underscore

unfoldable pub sanitize : Text → Text
sanitize wire =
    let out = map replaced wire in if starts_with_digit out then underscore ∷ out else out

abbrev pub upper_or_underscore : ℕ → ℕ
upper_or_underscore c = if is_ascii_alphanumeric c then to_ascii_uppercase c else underscore

unfoldable pub env_prefix : Text → Text
env_prefix name =
    let trimmed = trim_underscores (map upper_or_underscore name) in
    if is_empty trimmed then codes "SOOTHFAST" else trimmed
