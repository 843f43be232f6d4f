-- ===== src/Textdiff/Shortest.antt =====
-- The cells of the table of `lcs_edits`, and how many lines its walk keeps.
use soothfast.Base.{
  ℕ, suc, ◌+◌, ◌%◌, ◌≤◌, ◌<◌, ◌≡◌, refl, sym, ap, ◌∙◌, List, [], ◌∷◌, ◌++◌, map, none, some, arith,
  leb, Text, text_eq, length, length-append, get_elem?, Bool-cases, inl, inr,
}
use soothfast.Textdiff.{
  Op, keep, del, add, head_or_zero, row_at, cell, row, zeros, common, across, walk, lcs_edits,
  edits, u32_mod,
}
use soothfast.Textdiff.Script.{IsScript}
use soothfast.Textdiff.Parts.{edits-Parts, edits-IsScript}
use soothfast.Textdiff.Lcs.{
  lcs_front, lcs, kept, kept-lcs, lcs-front, lcs-back, lcs-le_length, lcs-nil,
}

-- A row that holds the values of `f` at what is left of the new lines.
abbrev values : (List Text → ℕ) → List Text → List ℕ
values f [] = f [] ∷ []
values f (b ∷ new) = f (b ∷ new) ∷ values f new

zeros-values : (new : List Text) → zeros new ≡ values (lcs []) new
unfolding lcs
zeros-values [] = refl
zeros-values (b ∷ new) = rw (zeros-values new)

head-values : (f : List Text → ℕ) (new : List Text) → head_or_zero (values f new) ≡ f new
head-values f [] = refl
head-values f (b ∷ new) = refl

row-values :
    (a : Text) (f : List Text → ℕ) (new : List Text)
    → f [] ≡ 0
    → ((n : List Text) → suc (f n) < u32_mod)
    → row a new (values f new) ≡ values (lcs_front a f) new
unfolding row lcs_front
row-values a f [] z h = refl
row-values a f (b ∷ new) z h =
    let m : (f new + 1) % u32_mod ≡ suc (f new) = omega (arith, h new) in
    rw (row-values a f new z h, head-values f new, head-values (lcs_front a f) new, m) refl

module _ (new : List Text) where
  -- From row `i` on the table belongs to what is left of the old lines.
  abbrev Rows : List (List ℕ) → ℕ → List Text → Type 0
  Rows t i [] = row_at t i ≡ values (lcs []) new
  Rows t i (a ∷ old) = (row_at t i ≡ values (lcs (a ∷ old)) new) × Rows t (suc i) old

  Rows-here :
      (t : List (List ℕ)) (i : ℕ) (old : List Text)
      → Rows t i old
      → row_at t i ≡ values (lcs old) new
  Rows-here t i [] r = r
  Rows-here t i (a ∷ old) r = r.0

  Rows-shift :
      (t : List (List ℕ)) (r : List ℕ) (i : ℕ) (old : List Text)
      → Rows t i old
      → Rows (r ∷ t) (suc i) old
  Rows-shift t r i [] h = h
  Rows-shift t r i (a ∷ old) h = (h.0, Rows-shift t r (suc i) old h.1)

  common-Rows : (old : List Text) → length old < u32_mod → Rows (common old new) 0 old
  unfolding common lcs
  common-Rows [] h = zeros-values new
  common-Rows (a ∷ old) h =
      let below = common-Rows old (omega arith) in
      (
        rw (Rows-here (common old new) 0 old below)
            (row-values a (lcs old) new (lcs-nil old) (λ n. omega (arith, lcs-le_length old n, h))),
        Rows-shift (common old new) _ 0 old below,
      )

-- From column `j` on a row's cells belong to what is left of the new lines.
abbrev Cols : List Text → ℕ → List Text → Type 0
Cols new j [] = (f : List Text → ℕ) → get_elem? (values f new) j ≡ some (f [])
Cols new j (b ∷ n) =
    ((f : List Text → ℕ) → get_elem? (values f new) j ≡ some (f (b ∷ n))) × Cols new (suc j) n

Cols-here :
    (new : List Text) (j : ℕ) (n : List Text)
    → Cols new j n
    → (f : List Text → ℕ) → get_elem? (values f new) j ≡ some (f n)
Cols-here new j [] c = c
Cols-here new j (b ∷ n) c = c.0

Cols-shift :
    (c : Text) (new : List Text) (j : ℕ) (n : List Text) → Cols new j n → Cols (c ∷ new) (suc j) n
Cols-shift c new j [] h = h
Cols-shift c new j (b ∷ n) h = (h.0, Cols-shift c new (suc j) n h.1)

Cols-start : (new : List Text) → Cols new 0 new
Cols-start [] = λ f. refl
Cols-start (b ∷ new) = (λ f. refl, Cols-shift b new 0 new (Cols-start new))

cell-values :
    (t : List (List ℕ)) (i : ℕ) (f : List Text → ℕ) (new : List Text) (j : ℕ) (n : List Text)
    → row_at t i ≡ values f new
    → Cols new j n
    → cell t i j ≡ f n
cell-values t i f new j n r c =
    ap (λ k. elim (get_elem? k j) [ some m ↦ m | none ↦ 0 ]) r
    ∙ ap (λ o. elim (o) [ some m ↦ m | none ↦ 0 ]) (Cols-here new j n c f)

kept-del : (ls : List Text) → kept (map del ls) ≡ 0
kept-del [] = refl
kept-del (l ∷ ls) = kept-del ls

kept-add : (ls : List Text) → kept (map add ls) ≡ 0
kept-add [] = refl
kept-add (l ∷ ls) = kept-add ls

module _ (t : List (List ℕ)) (whole : List Text) where
  kept-across :
      (i : ℕ) (a : Text) (old : List Text) (down : ℕ → List Text → List Op)
      → Rows whole t i (a ∷ old)
      → ((j : ℕ) (new : List Text) → Cols whole j new → kept (down j new) ≡ lcs old new)
      → (j : ℕ) (new : List Text) → Cols whole j new
      → kept (across t i a old down j new) ≡ lcs (a ∷ old) new
  unfolding across lcs
  kept-across i a old down r d j [] c = kept-del old
  kept-across i a old down r d j (b ∷ new) c = elim (Bool-cases (text_eq a b)) [
    | inl e ↦ rw (e, across) (ap suc (d (suc j) new c.1))
    | inr e ↦
        let right : cell t i (suc j) ≡ lcs (a ∷ old) new =
          cell-values t i (lcs (a ∷ old)) whole (suc j) new r.0 c.1 in
        let below : cell t (suc i) j ≡ lcs old (b ∷ new) =
          cell-values t (suc i) (lcs old) whole j (b ∷ new) (Rows-here whole t (suc i) old r.1) c in
        elim (Bool-cases (leb (cell t i (suc j)) (cell t (suc i) j))) [
          | inl f ↦ rw (e, f, across) (ground (arith, d j (b ∷ new) c))
          | inr f ↦ rw (e, f, across) (ground (arith, kept-across i a old down r d (suc j) new c.1))
        ]
  ]

  kept-walk :
      (i : ℕ) (old : List Text) (j : ℕ) (new : List Text)
      → Rows whole t i old
      → Cols whole j new
      → kept (walk t i old j new) ≡ lcs old new
  unfolding walk lcs
  kept-walk i [] j new r c = kept-add new
  kept-walk i (a ∷ old) j new r c =
      kept-across i a old (walk t (suc i) old) r (λ k n. kept-walk (suc i) old k n r.1) j new c

kept-append : (xs ys : List Op) → kept (xs ++ ys) ≡ kept xs + kept ys
kept-append [] ys = omega arith
kept-append (keep l ∷ xs) ys = omega (arith, kept-append xs ys)
kept-append (del l ∷ xs) ys = omega (arith, kept-append xs ys)
kept-append (add l ∷ xs) ys = omega (arith, kept-append xs ys)

kept-keep : (ls : List Text) → kept (map keep ls) ≡ length ls
kept-keep [] = refl
kept-keep (l ∷ ls) = ap suc (kept-keep ls)

kept-parts :
    (f o n b : List Text)
    → length o < u32_mod
    → kept (map keep f ++ (lcs_edits o n ++ map keep b)) ≡ lcs (f ++ (o ++ b)) (f ++ (n ++ b))
unfolding lcs_edits
kept-parts f o n b h = omega (
  arith,
  kept-append (map keep f) (walk (common o n) 0 o 0 n ++ map keep b),
  kept-append (walk (common o n) 0 o 0 n) (map keep b),
  kept-keep f,
  kept-keep b,
  kept-walk (common o n) n 0 o 0 n (common-Rows n o h) (Cols-start n),
  lcs-front f (o ++ b) (n ++ b),
  lcs-back o n b,
)

kept-edits : (old new : List Text) → length old < u32_mod → kept (edits old new) ≡ lcs old new
kept-edits old new h =
    let ps = edits-Parts old new in
    let le : length ps.old_middle < u32_mod = omega (
      arith,
      h,
      ap length ps.old_is,
      length-append ps.front (ps.old_middle ++ ps.back),
      length-append ps.old_middle ps.back,
    ) in
    ap kept ps.edits_is
    ∙ kept-parts ps.front ps.old_middle ps.new_middle ps.back le
    ∙ ap (λ k. lcs k (ps.front ++ (ps.new_middle ++ ps.back))) (sym ps.old_is)
    ∙ ap (lcs old) (sym ps.new_is)

-- The edits turn the old lines into the new ones, and no other script that does so keeps more lines; for
-- fewer than 2 ^ 32 old lines, so that no count of the table overflows.
pub edits-shortest :
    (old new : List Text)
    → length old < u32_mod
    → IsScript (edits old new) old new
      × ((ops : List Op) → IsScript ops old new → kept ops ≤ kept (edits old new))
edits-shortest old new h = (
  edits-IsScript old new,
  λ ops s. omega (arith, rw (s.0, s.1) at (kept-lcs ops), kept-edits old new h),
)
