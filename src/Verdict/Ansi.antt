-- ===== src/Verdict/Ansi.antt =====
-- `strip_ansi` of cargo-soothfast/src/verdict.rs. The loop and the two inner loops share one iterator,
-- so the model is one pass with a mode.
use soothfast.Base.{
  ℕ, ◌≡◌, ◌≢◌, refl, ap, Bool, true, false, ◌&&◌, ◌||◌, [], ◌∷◌, ◌++◌, arith, leb, ◌==◌,
  if◌then◌else◌, Text, All, Bool-cases, inl, inr,
}

abbrev pub escape : ℕ
escape = 27

-- Where the iterator stands: in plain text, behind an ESC, in a `[` sequence, or in a `]` sequence
-- with the character before.
pub data Mode : Type 0 where
  plain escaped csi : Mode
  osc : ℕ → Mode

abbrev pub is_final : ℕ → Bool
is_final c = leb 0x40 c && leb c 0x7e

unfoldable pub next_mode : Mode → ℕ → Mode
next_mode plain c = if c == escape then escaped else plain
next_mode escaped c = if c == b'[' then csi else if c == b']' then osc 0 else plain
next_mode csi c = if is_final c then plain else csi
next_mode (osc prev) c = if c == 7 || (prev == escape && c == 92) then plain else osc c

unfoldable pub emit : Mode → ℕ → Text → Text
emit plain c out = if c == escape then out else c ∷ out
emit m c out = out

unfoldable pub strip_from : Mode → Text → Text
strip_from m [] = []
strip_from m (c ∷ s) = emit m c (strip_from (next_mode m c) s)

unfoldable pub strip_ansi : Text → Text
unfolding strip_from next_mode emit
strip_ansi s = strip_from plain s

-- A text with no ESC in it.
abbrev pub IsClean : Text → Type 0
IsClean = All λ c. c ≢ escape

strip_from-IsClean : (m : Mode) (s : Text) → IsClean (strip_from m s)
unfolding strip_from emit
strip_from-IsClean m [] = tt
strip_from-IsClean plain (c ∷ s) = elim (Bool-cases (c == escape)) [
  | inl e ↦ rw e (strip_from-IsClean (next_mode plain c) s)
  | inr e ↦ rw e (ground arith, strip_from-IsClean (next_mode plain c) s)
]
strip_from-IsClean escaped (c ∷ s) = strip_from-IsClean (next_mode escaped c) s
strip_from-IsClean csi (c ∷ s) = strip_from-IsClean (next_mode csi c) s
strip_from-IsClean (osc p) (c ∷ s) = strip_from-IsClean (next_mode (osc p) c) s

pub strip_ansi-IsClean : (s : Text) → IsClean (strip_ansi s)
unfolding strip_ansi
strip_ansi-IsClean s = strip_from-IsClean plain s

-- Plain text in front of anything is kept as it is.
strip_from-clean-append :
    (s t : Text) → IsClean s → strip_from plain (s ++ t) ≡ s ++ strip_from plain t
unfolding strip_from next_mode emit
strip_from-clean-append [] t h = refl
strip_from-clean-append (c ∷ s) t h = ground (arith, h.0, strip_from-clean-append s t h.1)

pub strip_ansi-clean : (s : Text) → IsClean s → strip_ansi s ≡ s
unfolding strip_ansi
strip_ansi-clean [] h = refl
strip_ansi-clean (c ∷ s) h = ground (arith, h.0, strip_ansi-clean s h.1)

-- The output holds no ESC, and a text without one is left alone; so a second pass changes nothing.
pub strip_ansi_lem :
    (s : Text)
    → IsClean (strip_ansi s)
      × (IsClean s → strip_ansi s ≡ s)
      × (strip_ansi (strip_ansi s) ≡ strip_ansi s)
strip_ansi_lem s = (
  strip_ansi-IsClean s,
  strip_ansi-clean s,
  strip_ansi-clean (strip_ansi s) (strip_ansi-IsClean s),
)

strip_from-csi :
    (ps : Text) (f : ℕ) (t : Text)
    → All (λ c. is_final c ≡ false) ps
    → is_final f ≡ true
    → strip_from csi (ps ++ (f ∷ t)) ≡ strip_from plain t
unfolding strip_from next_mode emit
strip_from-csi [] f t a h = ground arith
strip_from-csi (c ∷ ps) f t a h = ground (arith, a.0, strip_from-csi ps f t a.1)

-- Behind a text without ESC a complete control sequence vanishes: ESC, `[`, parameters outside 0x40 to
-- 0x7e, and one final character in it.
pub strip_ansi-csi :
    (pre ps : Text) (f : ℕ) (post : Text)
    → IsClean pre
    → All (λ c. is_final c ≡ false) ps
    → is_final f ≡ true
    → strip_ansi (pre ++ (escape ∷ b'[' ∷ (ps ++ (f ∷ post)))) ≡ pre ++ strip_ansi post
unfolding strip_ansi
strip_ansi-csi pre ps f post c a h =
    rw (strip_from-clean-append pre _ c) (ap (λ t. pre ++ t) (strip_from-csi ps f post a h))
