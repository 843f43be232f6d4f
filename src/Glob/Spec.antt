-- ===== src/Glob/Spec.antt =====
-- What a glob means, with no search in it: a pattern's bytes as tokens, and which bytes they describe.
use soothfast.Base.{ℕ, suc, ◌≡◌, ◌≢◌, refl, ◌&&◌, List, [], ◌∷◌, arith, if◌then◌else◌, ◌==◌, Text}
use soothfast.Glob.{slash, star, question}

pub data Token : Type 0 where
  crossing in_segment one : Token
  literal : ℕ → Token

abbrev pub token_of : ℕ → Token
token_of c = if c == star then in_segment else if c == question then one else literal c

-- `**` with a slash behind it is one token.
unfoldable pub tokens : Text → List Token
tokens [] = []
tokens (c ∷ []) = token_of c ∷ []
tokens (c ∷ d ∷ []) = if c == star && d == star then crossing ∷ [] else token_of c ∷ tokens (d ∷ [])
tokens (c ∷ d ∷ e ∷ pat) =
    if c == star && d == star
    then (if e == slash then crossing ∷ tokens pat else crossing ∷ tokens (e ∷ pat))
    else token_of c ∷ tokens (d ∷ e ∷ pat)

-- `?` is one byte of a segment, `*` any number of them, `**` any bytes at all.
pub data Matches : List Token → Text → Type 0 where
  done : Matches [] []
  same : {c : ℕ} {ts : List Token} {s : Text} → Matches ts s → Matches (literal c ∷ ts) (c ∷ s)
  single :
      {c : ℕ} {ts : List Token} {s : Text} → c ≢ slash → Matches ts s → Matches (one ∷ ts) (c ∷ s)
  leave : {ts : List Token} {s : Text} → Matches ts s → Matches (in_segment ∷ ts) s
  take :
      {c : ℕ} {ts : List Token} {s : Text}
      → c ≢ slash
      → Matches (in_segment ∷ ts) s
      → Matches (in_segment ∷ ts) (c ∷ s)
  leave_all : {ts : List Token} {s : Text} → Matches ts s → Matches (crossing ∷ ts) s
  take_any :
      {c : ℕ} {ts : List Token} {s : Text}
      → Matches (crossing ∷ ts) s
      → Matches (crossing ∷ ts) (c ∷ s)

-- The slashes of a text, and those that a pattern asks for.
abbrev pub slashes : Text → ℕ
slashes [] = 0
slashes (c ∷ s) = if c == slash then suc (slashes s) else slashes s

abbrev pub token_slashes : List Token → ℕ
token_slashes [] = 0
token_slashes (literal c ∷ ts) = if c == slash then suc (token_slashes ts) else token_slashes ts
token_slashes (_ ∷ ts) = token_slashes ts

abbrev pub IsLocal : List Token → Type 0
IsLocal [] = Unit
IsLocal (crossing ∷ ts) = ⊥
IsLocal (_ ∷ ts) = IsLocal ts

Matches-slashes :
    {ts : List Token} {s : Text} → Matches ts s → IsLocal ts → slashes s ≡ token_slashes ts
Matches-slashes done l = refl
Matches-slashes (same {c} m) l = ground (arith, Matches-slashes m l)
Matches-slashes (single n m) l = ground (arith, Matches-slashes m l)
Matches-slashes (leave m) l = Matches-slashes m l
Matches-slashes (take n m) l = ground (arith, Matches-slashes m l)
Matches-slashes (leave_all m) l = absurd l
Matches-slashes (take_any m) l = absurd l

pub slashes-Matches :
    (ts : List Token) (s : Text) → Matches ts s → IsLocal ts → slashes s ≡ token_slashes ts
slashes-Matches ts s m l = Matches-slashes m l
