-- ===== src/Baseline/Accounted.antt =====
-- Every item of a package that any shard names is accounted for by an entry, unless its shard saved it.
use native.Mathlib.Nat.{mod-lt}
use soothfast.Base.{
  ℕ, zero, suc, ◌+◌, ◌%◌, ◌<◌, ◌≡◌, refl, sym, ◌∙◌, Bool, true, false, not, ◌&&◌, List, [], ◌∷◌,
  map, keep, any, Option, ◌==◌, ltb, leb, ==_iff, arith, Text, text_eq, text_eq_iff, mem_text,
  Bool-cases, inl, inr,
}
use soothfast.Base.Parse.{is_empty}
use soothfast.Base.BTreeSet.{BTreeSet}
use soothfast.Unmeasured.{Unmeasured}
use soothfast.Baseline.Shard.{Shard, fnv1a, owns}
use soothfast.Baseline.Unaccounted.{
  Shards, get_shard, covered, shards_from, missing, known, missing_entry, unaccounted,
}

mem-keep :
    (p : Text → Bool) (t : Text) (ts : List Text) → mem_text t (keep p ts) ≡ (p t && mem_text t ts)
unfolding mem_text
mem-keep p t [] = ground arith
mem-keep p t (u ∷ ts) = elim (Bool-cases (text_eq u t)) [
  | inl e ↦
      let q : u ≡ t = (text_eq_iff u t).0 e in
      rw q (ground (arith, mem-keep p t ts, (text_eq_iff t t).1 refl))
  | inr e ↦ ground (arith, mem-keep p t ts, e)
]

any-keep :
    {A : Type 0} (p q : A → Bool) (xs : List A) → any p (keep q xs) ≡ any (λ x. q x && p x) xs
any-keep p q [] = refl
any-keep p q (x ∷ xs) = ground (arith, any-keep p q xs)

any-none : {A : Type 0} (p : A → Bool) (xs : List A) → is_empty xs ≡ true → any p xs ≡ false
any-none p [] h = refl
any-none p (x ∷ xs) h = cc

mem-none : (t : Text) (ts : List Text) → is_empty ts ≡ true → mem_text t ts ≡ false
unfolding mem_text
mem-none t [] h = refl
mem-none t (u ∷ ts) h = cc

-- Whether an entry of the package names the item.
abbrev pub accounts : Text → Text → Unmeasured → Bool
accounts name id u = text_eq u.package_name name && mem_text id u.items

module _ (as_bytes : Text → List ℕ) (name id : Text) (shards : Shards) (count : ℕ) where
  -- The position of the shard that the item belongs to.
  abbrev pub home : ℕ
  home = suc (fnv1a (as_bytes id) % count)

  abbrev kept_by : Shard → Bool
  kept_by s = covered (get_shard s.position shards) name

  -- Among the shards from a position on, at most the one that the item belongs to owns it.
  owns-shards_from :
      (i n : ℕ)
      → 0 < i
      → any (λ s. not (kept_by s) && owns as_bytes s id) (shards_from count i n)
        ≡ (leb i home && (ltb home (i + n) && not (covered (get_shard home shards) name)))
  unfolding shards_from owns
  owns-shards_from i zero h = ground arith
  owns-shards_from i (suc n) h = elim (Bool-cases (i == home)) [
    | inl e ↦
        let p : i ≡ home = (==_iff i home).0 e in
        rw p (ground (arith, owns-shards_from (suc home) n (omega arith)))
    | inr e ↦ ground (arith, e, owns-shards_from (suc i) n (omega arith))
  ]

module _ (as_bytes : Text → List ℕ) (name id : Text) (shards : Shards) (expect : ℕ)
    (some_shard : 0 < expect) where
  owns-missing :
      any (λ s. owns as_bytes s id) (missing name shards expect)
      ≡ not (covered (get_shard (home as_bytes name id shards expect) shards) name)
  unfolding missing
  owns-missing =
      any-keep (λ s. owns as_bytes s id) (λ s. not (kept_by as_bytes name id shards expect s))
        (shards_from expect 1 expect)
      ∙ owns-shards_from as_bytes name id shards expect 1 expect (omega arith)
      ∙ ground (arith, some_shard, mod-lt (fnv1a (as_bytes id)) some_shard)

  -- The entries of the missing shards, before the empty ones are left out.
  accounts-missing :
      (ids : BTreeSet) (gone : List Shard)
      → any (accounts name id) (
          keep
            (λ (u : Unmeasured). not (is_empty u.items))
            (map (missing_entry as_bytes name shards ids) gone))
        ≡ (any (λ s. owns as_bytes s id) gone && mem_text id ids)
  unfolding missing_entry
  accounts-missing ids [] = refl
  accounts-missing ids (s ∷ gone) = elim (Bool-cases (is_empty (keep (owns as_bytes s) ids))) [
    | inl e ↦ rw e (
        ground (
          arith,
          accounts-missing ids gone,
          mem-keep (owns as_bytes s) id ids,
          mem-none id (keep (owns as_bytes s) ids) e,
        ))
    | inr e ↦ rw e (
        ground (
          arith,
          accounts-missing ids gone,
          mem-keep (owns as_bytes s) id ids,
          (text_eq_iff name name).1 refl,
        ))
  ]

  -- For a gate split into one shard or more: an item that the listings, the owners or the plan name for
  -- the package is in an entry for it exactly when the shard that the item hashes to saved nothing of
  -- the package, and an item that none of them names is in none.
  pub accounts-unaccounted :
      (plan : Option BTreeSet)
      → any (accounts name id) (unaccounted as_bytes name shards expect plan) ≡ (
          mem_text id (known name shards plan)
          && not (covered (get_shard (home as_bytes name id shards expect) shards) name))
  unfolding unaccounted mem_text
  accounts-unaccounted plan = elim (Bool-cases (is_empty (missing name shards expect))) [
    | inl e ↦
        rw (e, sym owns-missing, any-none (λ s. owns as_bytes s id) (missing name shards expect) e)
          (ground arith)
    | inr e ↦ elim (Bool-cases (is_empty (known name shards plan))) [
      | inl f ↦ rw (e, f, mem-none id (known name shards plan) f) (ground arith)
      | inr f ↦
          rw
            (
              e,
              f,
              accounts-missing (known name shards plan) (missing name shards expect),
              owns-missing,
            )
            (ground arith)
    ]
  ]
