-- ===== src/Agreement/Tests.antt =====
-- Runs of `settle`, and its theorem at a concrete input.
use soothfast.Base.{ℕ, ◌*◌, ◌≡◌, refl, arith, Bool, leb}
use soothfast.Agreement.{store, refuse, settle, within}
use soothfast.Agreement.Settled.{IsMonotone, Settled, settle-Settled}

-- One percent, in whole numbers.
abbrev one_percent : ℕ → ℕ → Bool
one_percent diff low = leb (diff * 100) low

the_outlier_loses : settle 5 one_percent 1000 5000 1003 ≡ store 1003
unfolding settle within
the_outlier_loses = refl

nothing_agrees : settle 5 one_percent 1000 5000 3000 ≡ refuse 1000 5000
unfolding settle within
nothing_agrees = refl

one_percent-IsMonotone : IsMonotone one_percent
one_percent-IsMonotone d e m n h k t = ground arith

settle-Settled_example : Settled 5 one_percent 1000 5000 1003 (settle 5 one_percent 1000 5000 1003)
settle-Settled_example = settle-Settled 5 one_percent one_percent-IsMonotone 1000 5000 1003
