-- ===== src/Glob/Sound.antt =====
-- `matches` against the meaning of a pattern.
use soothfast.Base.{
  utf8, ℕ, ◌≡◌, ◌↔◌, refl, sym, ap, fun_ext, ◌∙◌, Bool, true, not, ◌&&◌, List, [], ◌∷◌, arith, ◌==◌,
  Text, any, Bool-cases, inl, inr,
}
use soothfast.Base.Parse.{is_empty}
use soothfast.Glob.{
  slash, star, question, suffixes, segment_suffixes, first_then, go, matches, single as single_go,
}
use soothfast.Glob.Spec.{
  Token, crossing, in_segment, one, literal, token_of, tokens, Matches, done, same, single, leave,
  take, leave_all, take_any, slashes, token_slashes, IsLocal, slashes-Matches,
}

-- `go` over tokens: the stage between the code and the relation.
accepts : List Token → Text → Bool
accepts [] text = is_empty text
accepts (crossing ∷ ts) text = any (accepts ts) (suffixes text)
accepts (in_segment ∷ ts) text = any (accepts ts) (segment_suffixes text)
accepts (one ∷ ts) text = first_then (λ d. not (d == slash)) (accepts ts) text
accepts (literal c ∷ ts) text = first_then (λ d. d == c) (accepts ts) text

single-accepts :
    (c : ℕ) (ts : List Token) (text : Text)
    → single_go c (accepts ts) text ≡ accepts (token_of c ∷ ts) text
unfolding accepts
single-accepts c ts text = elim (Bool-cases (c == star)) [
  | inl e ↦ rw e refl
  | inr e ↦ rw e (elim (Bool-cases (c == question)) [ inl f ↦ rw f refl | inr f ↦ rw f refl ])
]

single-go :
    (c : ℕ) (pat text : Text) (ts : List Token)
    → go pat ≡ accepts ts
    → single_go c (go pat) text ≡ accepts (token_of c ∷ ts) text
single-go c pat text ts e = ap (λ k. single_go c k text) e ∙ single-accepts c ts text

any-go :
    (pat text : Text) (ts : List Token)
    → go pat ≡ accepts ts
    → any (go pat) (suffixes text) ≡ accepts (crossing ∷ ts) text
unfolding accepts
any-go pat text ts e = ap (λ k. any k (suffixes text)) e

go-accepts : (pat text : Text) → go pat text ≡ accepts (tokens pat) text
unfolding go tokens
go-accepts [] text = unfold accepts in refl
go-accepts (c ∷ []) text = single-go c [] text [] (fun_ext (go-accepts []))
go-accepts (c ∷ d ∷ []) text = elim (Bool-cases (c == star && d == star)) [
  | inl e ↦ rw e (any-go [] text [] (fun_ext (go-accepts [])))
  | inr e ↦ rw e (single-go c (d ∷ []) text (tokens (d ∷ [])) (fun_ext (go-accepts (d ∷ []))))
]
go-accepts (c ∷ d ∷ e ∷ pat) text = elim (Bool-cases (c == star && d == star)) [
  | inl h ↦ rw h (elim (Bool-cases (e == slash)) [
    | inl q ↦ rw q (any-go pat text (tokens pat) (fun_ext (go-accepts pat)))
    | inr q ↦ rw q (any-go (e ∷ pat) text (tokens (e ∷ pat)) (fun_ext (go-accepts (e ∷ pat))))
  ])
  | inr h ↦
      rw h
        (single-go c (d ∷ e ∷ pat) text (tokens (d ∷ e ∷ pat)) (fun_ext (go-accepts (d ∷ e ∷ pat))))
]

module _ (k : Text → Bool) (ts : List Token) where
  any-suffixes :
      (s : Text)
      → ((t : Text) → k t ≡ true → Matches ts t)
      → any k (suffixes s) ≡ true
      → Matches (crossing ∷ ts) s
  any-suffixes [] f h = leave_all (f [] (ground arith))
  any-suffixes (c ∷ s) f h = elim (Bool-cases (k (c ∷ s))) [
    | inl e ↦ leave_all (f (c ∷ s) e)
    | inr e ↦ take_any (any-suffixes s f (ground arith))
  ]

  any-segment :
      (s : Text)
      → ((t : Text) → k t ≡ true → Matches ts t)
      → any k (segment_suffixes s) ≡ true
      → Matches (in_segment ∷ ts) s
  any-segment [] f h = leave (f [] (ground arith))
  any-segment (c ∷ s) f h = elim (Bool-cases (k (c ∷ s))) [
    | inl e ↦ leave (f (c ∷ s) e)
    | inr e ↦ take (ground arith) (any-segment s f (ground arith))
  ]

  any-suffixes_here : (s : Text) → k s ≡ true → any k (suffixes s) ≡ true
  any-suffixes_here [] h = ground arith
  any-suffixes_here (c ∷ s) h = ground arith

  any-segment_here : (s : Text) → k s ≡ true → any k (segment_suffixes s) ≡ true
  any-segment_here [] h = ground arith
  any-segment_here (c ∷ s) h = ground arith

accepts-Matches : (ts : List Token) (s : Text) → accepts ts s ≡ true → Matches ts s
unfolding accepts
accepts-Matches [] [] h = done
accepts-Matches [] (c ∷ s) h = cc
accepts-Matches (crossing ∷ ts) s h = any-suffixes (accepts ts) ts s (accepts-Matches ts) h
accepts-Matches (in_segment ∷ ts) s h = any-segment (accepts ts) ts s (accepts-Matches ts) h
accepts-Matches (one ∷ ts) [] h = cc
accepts-Matches (one ∷ ts) (c ∷ s) h = single (ground arith) (accepts-Matches ts s (ground arith))
accepts-Matches (literal c ∷ ts) [] h = cc
accepts-Matches (literal c ∷ ts) (d ∷ s) h =
    let e : d ≡ c = ground arith in rw e (same (accepts-Matches ts s (ground arith)))

Matches-accepts : {ts : List Token} {s : Text} → Matches ts s → accepts ts s ≡ true
unfolding accepts
Matches-accepts done = refl
Matches-accepts (same m) = ground (arith, Matches-accepts m)
Matches-accepts (single n m) = ground (arith, Matches-accepts m)
Matches-accepts (leave {ts} {s} m) = any-segment_here (accepts ts) ts s (Matches-accepts m)
Matches-accepts (take n m) = ground (arith, Matches-accepts m)
Matches-accepts (leave_all {ts} {s} m) = any-suffixes_here (accepts ts) ts s (Matches-accepts m)
Matches-accepts (take_any m) = ground (arith, Matches-accepts m)

-- A path matches a pattern exactly when the tokens of the pattern's bytes describe the path's bytes in UTF-8:
-- `?` is one byte of a segment, `*` any number of them, and `**`, with a slash behind it or not, any bytes.
pub matches_iff :
    (pattern path : Text)
    → (matches pattern path ≡ true) ↔ Matches (tokens (utf8 pattern)) (utf8 path)
unfolding matches
matches_iff pattern path = (
  λ h.
      accepts-Matches (tokens (utf8 pattern)) (utf8 path)
        (sym (go-accepts (utf8 pattern) (utf8 path)) ∙ h),
  λ m. go-accepts (utf8 pattern) (utf8 path) ∙ Matches-accepts m,
)

-- A pattern without `**` matches only paths with as many slashes as it has, as bytes.
pub slashes-matches :
    (pattern path : Text)
    → IsLocal (tokens (utf8 pattern))
    → matches pattern path ≡ true
    → slashes (utf8 path) ≡ token_slashes (tokens (utf8 pattern))
slashes-matches pattern path l h =
    slashes-Matches (tokens (utf8 pattern)) (utf8 path) ((matches_iff pattern path).0 h) l
