-- ===== src/Agreement/Settled.antt =====
-- What `settle` stores and refuses.
use soothfast.Base.{
  ℕ, ◌≤◌, ◌≡◌, refl, min, max, Bool, true, false, ◌||◌, ◌⊎◌, inl, inr, arith, leb, Bool-cases,
}
use soothfast.Agreement.{Agreement, store, refuse, abs_diff, within, settle, sorted, at}

-- A percentage within the limit stays so for a smaller difference or a larger base.
abbrev pub IsMonotone : (ℕ → ℕ → Bool) → Type 0
IsMonotone p = (d e m n : ℕ) → d ≤ e → m ≤ n → p e m ≡ true → p d n ≡ true

abbrev Between : ℕ → ℕ → ℕ → Type 0
Between x y z = (min y z ≤ x) × (x ≤ max y z)

-- The middle one of three sorted readings is one of them, and lies between the other two.
abbrev Middle : ℕ → ℕ → ℕ → ℕ → Type 0
Middle m a b c = ((m ≡ a) × Between a b c) ⊎ ((m ≡ b) × Between b a c) ⊎ ((m ≡ c) × Between c a b)

sorted-Middle : (a b c : ℕ) → Middle (at (sorted a b c) 1) a b c
sorted-Middle a b c = elim (Bool-cases (leb b c)) [
  | inl e ↦ elim (Bool-cases (leb a b)) [
    | inl f ↦ rw (e, f) (inr (inl (refl, (ground arith, ground arith))))
    | inr f ↦ elim (Bool-cases (leb a c)) [
      | inl g ↦ rw (e, f, g) (inl (refl, (ground arith, ground arith)))
      | inr g ↦ rw (e, f, g) (inr (inr (refl, (ground arith, ground arith))))
    ]
  ]
  | inr e ↦ elim (Bool-cases (leb a c)) [
    | inl f ↦ rw (e, f) (inr (inr (refl, (ground arith, ground arith))))
    | inr f ↦ elim (Bool-cases (leb a b)) [
      | inl g ↦ rw (e, f, g) (inl (refl, (ground arith, ground arith)))
      | inr g ↦ rw (e, f, g) (inr (inl (refl, (ground arith, ground arith))))
    ]
  ]
]

sorted_ends :
    (a b c : ℕ) → (at (sorted a b c) 0 ≡ min a (min b c)) × (at (sorted a b c) 2 ≡ max a (max b c))
sorted_ends a b c = elim (Bool-cases (leb b c)) [
  | inl e ↦ elim (Bool-cases (leb a b)) [
    | inl f ↦ rw (e, f) (ground arith, ground arith)
    | inr f ↦ elim (Bool-cases (leb a c)) [
      | inl g ↦ rw (e, f, g) (ground arith, ground arith)
      | inr g ↦ rw (e, f, g) (ground arith, ground arith)
    ]
  ]
  | inr e ↦ elim (Bool-cases (leb a c)) [
    | inl f ↦ rw (e, f) (ground arith, ground arith)
    | inr f ↦ elim (Bool-cases (leb a b)) [
      | inl g ↦ rw (e, f, g) (ground arith, ground arith)
      | inr g ↦ rw (e, f, g) (ground arith, ground arith)
    ]
  ]
]

module _ (abs : ℕ) (p : ℕ → ℕ → Bool) where
  -- What the answer promises about the three readings.
  abbrev pub Settled : ℕ → ℕ → ℕ → Agreement → Type 0
  Settled a b c (store v) =
      ((v ≡ a) × ((within abs p a b || within abs p a c) ≡ true))
      ⊎ ((v ≡ b) × ((within abs p b a || within abs p b c) ≡ true))
      ⊎ ((v ≡ c) × ((within abs p c a || within abs p c b) ≡ true))
  Settled a b c (refuse low high) =
      (within abs p a b ≡ false)
      × (within abs p a c ≡ false)
      × (within abs p b c ≡ false)
      × (low ≡ min a (min b c))
      × (high ≡ max a (max b c))

  within_comm : (a b : ℕ) → within abs p a b ≡ within abs p b a
  unfolding within
  within_comm a b =
      let d : abs_diff a b ≡ abs_diff b a = ground arith in
      let m : min a b ≡ min b a = omega arith in rw (d, m) refl

module _ (abs : ℕ) (p : ℕ → ℕ → Bool) (mono : IsMonotone p) where
  -- Two readings agree if they are no further apart than two that agree, and no smaller.
  within-inside :
      (a b x y : ℕ)
      → abs_diff x y ≤ abs_diff a b
      → min a b ≤ min x y
      → within abs p a b ≡ true
      → within abs p x y ≡ true
  unfolding within
  within-inside a b x y d m h =
      ground (arith, mono (abs_diff x y) (abs_diff a b) (max (min a b) 1) (max (min x y) 1))

  -- A reading that lies between two that agree, agrees with both.
  within-Between : (x a b : ℕ) → Between x a b → within abs p a b ≡ true → within abs p x a ≡ true
  within-Between x a b h w = within-inside a b x a (ground arith) (omega arith) w

  Middle-store :
      (a b c m : ℕ)
      → within abs p a b ≡ false
      → (within abs p a c || within abs p b c) ≡ true
      → Middle m a b c
      → Settled abs p a b c (store m)
  Middle-store a b c m n w (inl (e, h)) = inl (e, ground (arith, within-Between a b c h))
  Middle-store a b c m n w (inr (inl (e, h))) =
      inr (inl (e, ground (arith, within-Between b a c h)))
  Middle-store a b c m n w (inr (inr (e, h))) =
      inr (inr (e, ground (arith, within_comm abs p a c, within_comm abs p b c)))

  -- What is stored is one of the three readings, and another one of them agrees with it; and where no
  -- reading is stored no two of them agree, and the least and the greatest are reported. The test in f64
  -- is taken to hold of a smaller difference or a larger base where it holds.
  pub settle-Settled : (a b c : ℕ) → Settled abs p a b c (settle abs p a b c)
  unfolding settle
  settle-Settled a b c = elim (Bool-cases (within abs p a b)) [
    | inl e ↦ rw e (inl (refl, ground arith))
    | inr e ↦ elim (Bool-cases (within abs p a c || within abs p b c)) [
      | inl f ↦ rw (e, f) (Middle-store a b c _ e f (sorted-Middle a b c))
      | inr f ↦
          rw (e, f) (e, ground arith, ground arith, (sorted_ends a b c).0, (sorted_ends a b c).1)
    ]
  ]
