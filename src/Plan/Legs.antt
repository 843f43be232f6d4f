-- ===== src/Plan/Legs.antt =====
-- The legs that a gate is split into, read back as shards: each item belongs to one of them.
use native.Mathlib.Nat.{mod-lt}
use soothfast.Base.{
  ℕ, zero, suc, ◌+◌, ◌%◌, ◌/◌, ◌≤◌, ◌<◌, ◌≡◌, refl, Bool, true, false, ◌&&◌, List, [], ◌∷◌, ◌++◌,
  append-nil, Option, none, some, if◌then◌else◌, ◌==◌, ltb, leb, arith, Text, codes, split_once,
  strip_prefix, all, Bool-cases, inl, inr,
}
use soothfast.Base.Parse.{u64_mod}
use soothfast.Base.Format.{display, show_from, concat, parse_u64-display}
use soothfast.Plan.{Plan}
use soothfast.Plan.Jobs.{leg, legs_from, legs}
use soothfast.Baseline.Shard.{Shard, parse, show, owns, fnv1a}

abbrev is_digit : ℕ → Bool
is_digit c = leb b'0' c && leb c b'9'

all-show_from :
    (f n : ℕ) (out : Text) → all is_digit out ≡ true → all is_digit (show_from f n out) ≡ true
unfolding show_from
all-show_from zero n out h = h
all-show_from (suc f) n out h =
    ground (arith, all-show_from f (n / 10) ((b'0' + n % 10) ∷ out) (ground (arith, h)), h)

split_once-digits :
    (s t : Text) → all is_digit s ≡ true → split_once (s ++ (b'/' ∷ t)) (codes "/") ≡ some (s, t)
unfolding split_once strip_prefix
split_once-digits [] t h = refl
split_once-digits (c ∷ s) t h = elim (Bool-cases (c == b'/')) [
  | inl e ↦ let no : ⊥ = ground (arith, h, e) in absurd no
  | inr e ↦ rw (e, split_once-digits s t (ground (arith, h)), split_once, strip_prefix) refl
]

-- A shard is read back from its text.
pub parse-show :
    (i n : ℕ)
    → 0 < i
    → i ≤ n
    → n < u64_mod
    → parse (show (record { position = i; count = n })) ≡ some (record { position = i; count = n })
unfolding parse show
parse-show i n pos le fits =
    rw (slashed, parse_u64-display i (omega arith), parse_u64-display n fits) (ground arith)
  where
    digits : (m : ℕ) → all is_digit (display m) ≡ true
    digits m = unfold display in all-show_from (suc m) m [] refl

    slashed :
        split_once (concat (display i ∷ codes "/" ∷ display n ∷ [])) (codes "/")
        ≡ some (display i, display n)
    slashed =
        unfold concat in
        rw (append-nil (display n)) (split_once-digits (display i) (display n) (digits i))

abbrev pub owns_leg : (Text → List ℕ) → Text → Option Shard → ℕ
owns_leg as_bytes id none = 0
owns_leg as_bytes id (some shard) = if owns as_bytes shard id then 1 else 0

-- How many of the legs, read as shards, own the item.
abbrev pub owners_of : (Text → List ℕ) → Text → List (Text × Text) → ℕ
owners_of as_bytes id [] = 0
owners_of as_bytes id (l ∷ ls) = owns_leg as_bytes id (parse l.0) + owners_of as_bytes id ls

module _ (as_bytes : Text → List ℕ) (id : Text) (n : ℕ) (fits : n < u64_mod) where
  owners-legs_from :
      (i k : ℕ)
      → 0 < i
      → i + k ≤ suc n
      → owners_of as_bytes id (legs_from n i k) ≡ (
          if leb i (suc (fnv1a (as_bytes id) % n)) && ltb (suc (fnv1a (as_bytes id) % n)) (i + k)
          then 1
          else 0)
  unfolding owns concat show
  owners-legs_from i zero pos le = ground arith
  owners-legs_from i (suc k) pos le =
      let here : parse (leg n i).0 ≡ some (record { position = i; count = n }) =
        parse-show i n pos (omega (arith, le)) fits in
      rw here (ground (arith, pos, owners-legs_from (suc i) k (omega arith) (omega (arith, le))))

-- Where the gate is split into two shards or more, and all of them run: whatever the item, just one of
-- the legs reads back as the shard that owns it.
pub owners-legs :
    (as_bytes : Text → List ℕ) (id : Text) (plan : Plan)
    → 1 < plan.shards
    → plan.shards < u64_mod
    → plan.first_shard_only ≡ false
    → owners_of as_bytes id (legs plan) ≡ 1
unfolding legs
owners-legs as_bytes id plan two fits whole =
    let some_shard : 0 < plan.shards = omega (arith, two) in
    elim (Bool-cases (leb plan.shards 1)) [
      | inl e ↦ let no : ⊥ = ground (arith, e, two) in absurd no
      | inr e ↦
          rw
            (
              e,
              whole,
              owners-legs_from as_bytes id plan.shards fits 1 plan.shards (omega arith)
                  (omega arith),
            )
            (ground (arith, mod-lt (fnv1a (as_bytes id)) some_shard))
    ]
