-- ===== src/Verdict/Fit.antt =====
-- Which sections `fit` empties.
use soothfast.Base.{
  ℕ, zero, suc, ◌≤◌, ◌<◌, ◌≡◌, refl, false, List, [], ◌∷◌, Option, arith, leb, leb→le, ℕ_discrete,
  Text, length, Bool-cases, inl, inr, ◌⊎◌,
}
use soothfast.Verdict.Types.{Record, body_limit, truncated}
use soothfast.Verdict.Render.{render, empty_at, fit_loop, fit}

-- The records with the output of all but the first `k` emptied.
abbrev pub emptied : ℕ → List Record → List Record
emptied k [] = []
emptied zero (r ∷ rs) = record r { tail = truncated } ∷ emptied zero rs
emptied (suc k) (r ∷ rs) = r ∷ emptied k rs

emptied-all : (rs : List Record) → emptied (length rs) rs ≡ rs
emptied-all [] = refl
emptied-all (r ∷ rs) = rw (emptied-all rs)

empty_at-emptied : (i : ℕ) (rs : List Record) → empty_at i (emptied (suc i) rs) ≡ emptied i rs
unfolding empty_at
empty_at-emptied i [] = refl
empty_at-emptied zero (r ∷ rs) = refl
empty_at-emptied (suc i) (r ∷ rs) = rw (empty_at-emptied i rs)

-- What `fit` promises about the number `k` of sections that keep their output.
pub record Fitted (rs : List Record) (accepted : Option Text) (body : Text) (k : ℕ) : Type 0 where
  pub bound : k ≤ length rs
  pub body_is : body ≡ render (emptied k rs) accepted
  pub fits : (k ≡ 0) ⊎ (length body ≤ body_limit)
  pub needed :
      (j : ℕ) → k < j → j ≤ length rs → body_limit < length (render (emptied j rs) accepted)

fit_loop-Fitted :
    (rs : List Record) (accepted : Option Text) (i : ℕ)
    → i ≤ length rs
    → ((j : ℕ) → i < j → j ≤ length rs → body_limit < length (render (emptied j rs) accepted))
    → (k : ℕ) × Fitted rs accepted
        (fit_loop i (emptied i rs) accepted (render (emptied i rs) accepted))
        k
unfolding fit_loop
fit_loop-Fitted rs accepted zero h over =
    (0, record { bound = h; body_is = refl; fits = inl refl; needed = over })
fit_loop-Fitted rs accepted (suc i) h over =
    elim (Bool-cases (leb (length (render (emptied (suc i) rs) accepted)) body_limit)) [
      | inl e ↦
          rw e
            (suc i, record { bound = h; body_is = refl; fits = inr (leb→le _ _ e); needed = over })
      | inr e ↦
          rw e (rw (empty_at-emptied i rs) (fit_loop-Fitted rs accepted i (omega arith) (grown e)))
    ]
  where
    grown :
        leb (length (render (emptied (suc i) rs) accepted)) body_limit ≡ false
        → (j : ℕ) → i < j
        → j ≤ length rs
        → body_limit < length (render (emptied j rs) accepted)
    grown e j lt le = elim (ℕ_discrete j (suc i)) [
      | yes q ↦ rw q (ground arith)
      | no q ↦ over j (omega arith) le
    ]

-- The posted body is the report with some number of sections kept whole from the front and the output of
-- the rest replaced by the note; it is within the limit, or every output is replaced; and keeping any
-- more sections would have been over it.
pub fit-Fitted :
    (rs : List Record) (accepted : Option Text) → (k : ℕ) × Fitted rs accepted (fit rs accepted) k
unfolding fit
fit-Fitted rs accepted =
    rw (emptied-all rs) at
      (fit_loop-Fitted rs accepted (length rs) (omega arith) (λ j a b. absurd (omega arith)))
