-- ===== src/Textdiff/Unified.antt =====
-- When the diff that is shown is empty.
use soothfast.Base.{
  ℕ, zero, suc, ◌+◌, ◌*◌, ◌-◌, ◌≡◌, ◌↔◌, refl, sym, ap, ◌∙◌, Bool, true, false, not, ◌&&◌, ◌||◌,
  List, [], ◌∷◌, ◌++◌, map, arith, ltb, ◌==◌, Text, codes, text_eq, text_eq_iff, text_eq_refl,
  is_some, length, take, drop, Bool-cases, inl, inr, Option-cases,
}
use soothfast.Base.Lines.{newline, push_front}
use soothfast.Base.Parse.{is_empty}
use soothfast.Base.Format.{concat, replace}
use soothfast.Textdiff.{Op, keep, del, add, edits, lcs_edits, common_prefix, walk}
use soothfast.Textdiff.Script.{olds, news}
use soothfast.Textdiff.Parts.{edits-IsScript, drop-length}
use soothfast.Textdiff.Hunks.{
  split_inclusive, Hunk, finish, Writer, keep_lines, close_hunk, trim_keeps, step, steps, written,
  fresh, unified, context,
}

concat-push_front : (c : ℕ) (ls : List Text) → concat (push_front c ls) ≡ c ∷ concat ls
unfolding concat
concat-push_front c [] = refl
concat-push_front c (l ∷ ls) = refl

-- The lines with their ends make the text again.
concat-split_inclusive : (s : Text) → concat (split_inclusive s) ≡ s
unfolding concat split_inclusive
concat-split_inclusive [] = refl
concat-split_inclusive (c ∷ s) = elim (Bool-cases (c == newline)) [
  | inl e ↦ rw (e, concat-split_inclusive s) refl
  | inr e ↦ rw (e, concat-push_front c (split_inclusive s), concat-split_inclusive s) refl
]

-- Something is written, or a hunk is being written.
abbrev live : Writer → Bool
live w = is_some w.current || not (is_empty w.out)

has_text : Text → Bool
has_text s = not (is_empty s)

finish-some : (h : Hunk) (s : Text) → is_empty (s ++ finish h) ≡ false
unfolding finish concat
finish-some h [] = refl
finish-some h (c ∷ s) = refl

live-close_hunk : (w : Writer) → live w ≡ true → live (close_hunk w) ≡ true
unfolding close_hunk
live-close_hunk w l = elim (Option-cases w.current) [
  | inl e ↦ rw (e, close_hunk) l
  | inr (h, e) ↦
      rw (e, close_hunk)
        (elim (Bool-cases (ltb (2 * context) (length w.keeps))) [
          | inl f ↦ rw f (ap not (finish-some (keep_lines h (take context w.keeps)) w.out))
          | inr f ↦ rw f l
        ])
]

live-trim_keeps : (w : Writer) → live (trim_keeps w) ≡ live w
unfolding trim_keeps
live-trim_keeps w = elim (Bool-cases (not (is_some w.current) && ltb context (length w.keeps))) [
  | inl e ↦ rw e refl
  | inr e ↦ rw e refl
]

live-step : (w : Writer) (op : Op) → live w ≡ true → live (step w op) ≡ true
unfolding step
live-step w (keep l) h =
    let v = record w {
      keeps = w.keeps ++ l ∷ [];
      seen_old = w.seen_old + 1;
      seen_new = w.seen_new + 1;
    } in
    live-trim_keeps (close_hunk v) ∙ live-close_hunk v h
live-step w (del l) h = refl
live-step w (add l) h = refl

live-written : (w : Writer) → live w ≡ true → is_empty (written w) ≡ false
unfolding written
live-written w h = elim (Option-cases w.current) [
  | inl e ↦ rw (e, written) (let k : not (is_empty w.out) ≡ true = rw e at h in ground (arith, k))
  | inr (k, e) ↦ rw (e, written) (finish-some (keep_lines k (take context w.keeps)) w.out)
]

live-steps : (w : Writer) (ops : List Op) → live w ≡ true → live (steps w ops) ≡ true
unfolding steps
live-steps w [] h = h
live-steps w (op ∷ ops) h = live-steps (step w op) ops (live-step w op h)

-- A script that keeps every line.
abbrev keeps_all : List Op → Bool
keeps_all [] = true
keeps_all (keep l ∷ ops) = keeps_all ops
keeps_all (del l ∷ ops) = false
keeps_all (add l ∷ ops) = false

idle-close_hunk : (w : Writer) → live w ≡ false → live (close_hunk w) ≡ false
unfolding close_hunk
idle-close_hunk w l = elim (Option-cases w.current) [
  | inl e ↦ rw (e, close_hunk) l
  | inr (h, e) ↦ absurd (clashes (rw e at l))
]
  where
    clashes : true ≡ false → ⊥
    clashes q = cc

-- With no changed line nothing is written.
idle-steps :
    (w : Writer) (ops : List Op) → live w ≡ false → is_empty (written (steps w ops)) ≡ keeps_all ops
unfolding steps step
idle-steps w [] h =
    unfold written in
    elim (Option-cases w.current) [
      | inl e ↦
          rw (e, written) (let k : not (is_empty w.out) ≡ false = rw e at h in ground (arith, k))
      | inr (k, e) ↦ absurd (clashes (rw e at h))
    ]
  where
    clashes : true ≡ false → ⊥
    clashes q = cc
idle-steps w (keep l ∷ ops) h =
    let v = record w {
      keeps = w.keeps ++ l ∷ [];
      seen_old = w.seen_old + 1;
      seen_new = w.seen_new + 1;
    } in
    idle-steps (trim_keeps (close_hunk v)) ops
      (live-trim_keeps (close_hunk v) ∙ idle-close_hunk v h)
idle-steps w (del l ∷ ops) h = live-written _ (live-steps (step w (del l)) ops refl)
idle-steps w (add l ∷ ops) h = live-written _ (live-steps (step w (add l)) ops refl)

keeps_all_same : (ops : List Op) → keeps_all ops ≡ true → olds ops ≡ news ops
keeps_all_same [] h = refl
keeps_all_same (keep l ∷ ops) h = ap (λ k. l ∷ k) (keeps_all_same ops h)
keeps_all_same (del l ∷ ops) h = cc
keeps_all_same (add l ∷ ops) h = cc

common_prefix_self : (ls : List Text) → common_prefix ls ls ≡ length ls
unfolding common_prefix
common_prefix_self [] = refl
common_prefix_self (l ∷ ls) = ground (arith, text_eq_refl l, common_prefix_self ls)

take-nil : (n : ℕ) → take {A = Text} n [] ≡ []
take-nil zero = refl
take-nil (suc n) = refl

keeps_all-keep : (ls : List Text) (ops : List Op) → keeps_all (map keep ls ++ ops) ≡ keeps_all ops
keeps_all-keep [] ops = refl
keeps_all-keep (l ∷ ls) ops = keeps_all-keep ls ops

keeps_all-edits : (ls : List Text) → keeps_all (edits ls ls) ≡ true
unfolding edits lcs_edits walk common_prefix
keeps_all-edits ls =
    rw (common_prefix_self ls, drop-length ls)
      (rw (take-nil (length ls - 0 - length ls)) (
        keeps_all-keep (take (length ls) ls) (map keep (drop (length ls - 0) ls))
        ∙ keep_only (drop (length ls - 0) ls)))
  where
    keep_only : (ks : List Text) → keeps_all (map keep ks) ≡ true
    keep_only [] = refl
    keep_only (k ∷ ks) = keep_only ks

is_empty_iff : (s : Text) → (is_empty s ≡ true) ↔ (s ≡ [])
is_empty_iff [] = (λ h. refl, λ h. refl)
is_empty_iff (c ∷ s) = (λ h. cc, λ h. cc)

-- The loop over the edits of two texts writes nothing exactly when the texts are one.
written_iff :
    (old new : Text)
    → (is_empty (written (steps fresh (edits (split_inclusive old) (split_inclusive new)))) ≡ true)
      ↔ (old ≡ new)
written_iff old new = (
  λ h.
      let s = edits-IsScript (split_inclusive old) (split_inclusive new) in
      let k = keeps_all_same (edits (split_inclusive old) (split_inclusive new)) (sym idle ∙ h) in
      let e : split_inclusive old ≡ split_inclusive new = sym s.0 ∙ k ∙ s.1 in
      sym (concat-split_inclusive old) ∙ ap concat e ∙ concat-split_inclusive new,
  λ e.
      idle
      ∙ ap (λ n. keeps_all (edits (split_inclusive old) (split_inclusive n))) (sym e)
      ∙ keeps_all-edits (split_inclusive old),
)
  where
    idle :
        is_empty (written (steps fresh (edits (split_inclusive old) (split_inclusive new))))
        ≡ keeps_all (edits (split_inclusive old) (split_inclusive new))
    idle = idle-steps fresh (edits (split_inclusive old) (split_inclusive new)) refl

-- The diff is empty exactly when the texts are the same, line endings and final newline included.
pub unified_iff : (old new : Text) → (unified old new ≡ []) ↔ (old ≡ new)
unfolding unified
unified_iff old new = elim (Bool-cases (text_eq old new)) [
  | inl e ↦ rw e (λ h. (text_eq_iff old new).0 e, back)
  | inr e ↦
      let differ : old ≡ new → ⊥ = λ q. clashes (sym ((text_eq_iff old new).1 q) ∙ e) in
      elim (Bool-cases (text_eq (to_lf old) (to_lf new))) [
        | inl f ↦ rw (e, f) (λ h. cc, λ q. absurd (differ q))
        | inr f ↦ rw (e, f) (λ h. (written_iff old new).0 ((is_empty_iff _).1 h), back)
      ]
]
  where
    to_lf : Text → Text
    to_lf s = replace (codes "\r\n") (codes "\n") s

    clashes : true ≡ false → ⊥
    clashes q = cc

    back :
        old ≡ new → written (steps fresh (edits (split_inclusive old) (split_inclusive new))) ≡ []
    back q = (is_empty_iff _).0 ((written_iff old new).1 q)
