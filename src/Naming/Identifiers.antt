-- ===== src/Naming/Identifiers.antt =====
-- The names as identifiers.
use soothfast.Base.{
  ℕ, ◌+◌, ◌≡◌, refl, Bool, true, false, ◌&&◌, ◌||◌, [], ◌∷◌, ◌++◌, map, All, arith, if◌then◌else◌,
  ◌==◌, Text, codes, Bool-cases, inl, inr,
}
use soothfast.Base.Parse.{is_empty, trim_start_matches}
use soothfast.Naming.{
  is_ascii_uppercase, is_ascii_lowercase, is_ascii_digit, is_ascii_alphanumeric, underscore,
  push_underscore, ends_with_underscore, trim_end_underscores, trim_underscores, snake_step,
  snake_loop, starts_with_digit, snake, sanitize, replaced, upper_or_underscore, env_prefix,
}

-- Lower case letters, digits and underscores; and the same with upper case letters for lower.
abbrev pub is_snake_char : ℕ → Bool
is_snake_char c = is_ascii_lowercase c || is_ascii_digit c || c == underscore

abbrev pub is_env_char : ℕ → Bool
is_env_char c = is_ascii_uppercase c || is_ascii_digit c || c == underscore

abbrev pub is_word_char : ℕ → Bool
is_word_char c = is_ascii_alphanumeric c || c == underscore

abbrev pub Of : (ℕ → Bool) → Text → Type 0
Of p = All λ c. p c ≡ true

module _ (p : ℕ → Bool) where
  Of-append : (s t : Text) → Of p s → Of p t → Of p (s ++ t)
  Of-append [] t a b = b
  Of-append (c ∷ s) t a b = (a.0, Of-append s t a.1 b)

  Of-trim_start : (s : Text) → Of p s → Of p (trim_start_matches s underscore)
  unfolding trim_start_matches
  Of-trim_start [] a = tt
  Of-trim_start (c ∷ s) a = elim (Bool-cases (c == underscore)) [
    | inl e ↦ rw e (Of-trim_start s a.1)
    | inr e ↦ rw e a
  ]

  Of-trim_end : (s : Text) → Of p s → Of p (trim_end_underscores s)
  unfolding trim_end_underscores
  Of-trim_end [] a = tt
  Of-trim_end (c ∷ s) a = elim (Bool-cases (is_empty (trim_end_underscores s) && c == underscore)) [
    | inl e ↦ rw e tt
    | inr e ↦ rw e (a.0, Of-trim_end s a.1)
  ]

  Of-trim : (s : Text) → Of p s → Of p (trim_underscores s)
  unfolding trim_underscores
  Of-trim s a = Of-trim_end (trim_start_matches s underscore) (Of-trim_start s a)

  Of-push_underscore : (s : Text) → p underscore ≡ true → Of p s → Of p (push_underscore s)
  Of-push_underscore s u a = elim (Bool-cases (ends_with_underscore s)) [
    | inl e ↦ rw e a
    | inr e ↦ rw e (Of-append s (underscore ∷ []) a (u, tt))
  ]

-- An identifier: not empty, no digit in front, and only the given characters.
abbrev pub IsIdentifier : (ℕ → Bool) → Text → Type 0
IsIdentifier p s = (is_empty s ≡ false) × (starts_with_digit s ≡ false) × Of p s

snake_step-Of :
    (out : Text) (lower : Bool) (c : ℕ)
    → Of is_snake_char out
    → Of is_snake_char (snake_step (out, lower) c).0
unfolding snake_step
snake_step-Of out lower c a = elim (Bool-cases (is_ascii_uppercase c)) [
  | inl e ↦ rw e (
      Of-append is_snake_char (if lower then push_underscore out else out) ((c + 32) ∷ [])
        (before lower) (ground (arith, e), tt))
  | inr e ↦ elim (Bool-cases (is_ascii_lowercase c || is_ascii_digit c)) [
    | inl f ↦ rw (e, f) (Of-append is_snake_char out (c ∷ []) a (ground (arith, f), tt))
    | inr f ↦ rw (e, f) (Of-push_underscore is_snake_char out refl a)
  ]
]
  where
    before : (b : Bool) → Of is_snake_char (if b then push_underscore out else out)
    before true = Of-push_underscore is_snake_char out refl a
    before false = a

snake_loop-Of :
    (out : Text) (lower : Bool) (name : Text)
    → Of is_snake_char out
    → Of is_snake_char (snake_loop (out, lower) name).0
unfolding snake_loop
snake_loop-Of out lower [] a = a
snake_loop-Of out lower (c ∷ name) a =
    snake_loop-Of (snake_step (out, lower) c).0 (snake_step (out, lower) c).1 name
      (snake_step-Of out lower c a)

-- Whatever the name on the wire, `snake` makes an identifier of it, in lower case.
pub snake-IsIdentifier : (name : Text) → IsIdentifier is_snake_char (snake name)
unfolding snake
snake-IsIdentifier name =
    named (trim_underscores (snake_loop ([], false) name).0)
      (Of-trim is_snake_char _ (snake_loop-Of [] false name tt))
  where
    named :
        (s : Text)
        → Of is_snake_char s
        → IsIdentifier is_snake_char (
            if is_empty s then codes "field" else if starts_with_digit s then underscore ∷ s else s)
    named [] a = (refl, refl, (refl, (refl, (refl, (refl, (refl, tt))))))
    named (c ∷ s) a = elim (Bool-cases (is_ascii_digit c)) [
      | inl e ↦ rw e (refl, refl, (refl, a))
      | inr e ↦ rw e (refl, e, a)
    ]

map-Of : (f : ℕ → ℕ) (p : ℕ → Bool) (s : Text) → ((c : ℕ) → p (f c) ≡ true) → Of p (map f s)
map-Of f p [] h = tt
map-Of f p (c ∷ s) h = (h c, map-Of f p s h)

map-replaced : (s : Text) → Of is_word_char s → map replaced s ≡ s
map-replaced [] a = refl
map-replaced (c ∷ s) a =
    let e : replaced c ≡ c = ground (arith, a.0) in rw (e, map-replaced s a.1) refl

-- `sanitize` leaves word characters, with no digit in front, and a name that already is so as it is.
pub sanitize_lem :
    (wire : Text)
    → Of is_word_char (sanitize wire)
      × (starts_with_digit (sanitize wire) ≡ false)
      × (Of is_word_char wire → starts_with_digit wire ≡ false → sanitize wire ≡ wire)
unfolding sanitize
sanitize_lem wire = (
  prefixed (map replaced wire) (map-Of replaced is_word_char wire (λ c. ground arith)),
  no_digit (map replaced wire),
  λ a d. rw (map-replaced wire a, d) refl,
)
  where
    prefixed :
        (s : Text)
        → Of is_word_char s
        → Of is_word_char (if starts_with_digit s then underscore ∷ s else s)
    prefixed s a = elim (Bool-cases (starts_with_digit s)) [
      | inl e ↦ rw e (refl, a)
      | inr e ↦ rw e a
    ]

    no_digit :
        (s : Text) → starts_with_digit (if starts_with_digit s then underscore ∷ s else s) ≡ false
    no_digit s = elim (Bool-cases (starts_with_digit s)) [ inl e ↦ rw e refl | inr e ↦ rw e e ]

-- The prefix of environment variables is never empty, and has capitals, digits and underscores only.
pub env_prefix-Of :
    (name : Text) → (is_empty (env_prefix name) ≡ false) × Of is_env_char (env_prefix name)
unfolding env_prefix
env_prefix-Of name =
    named (trim_underscores (map upper_or_underscore name))
      (Of-trim is_env_char _ (map-Of upper_or_underscore is_env_char name (λ c. ground arith)))
  where
    named :
        (s : Text)
        → Of is_env_char s
        → (is_empty (if is_empty s then codes "SOOTHFAST" else s) ≡ false)
          × Of is_env_char (if is_empty s then codes "SOOTHFAST" else s)
    named [] a = (refl, (refl, (refl, (refl, (refl, (refl, (refl, (refl, (refl, (refl, tt))))))))))
    named (c ∷ s) a = (refl, a)
