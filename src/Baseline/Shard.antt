-- ===== src/Baseline/Shard.antt =====
-- `Shard` of cargo-soothfast/src/invoke.rs, and `fnv1a` of soothfast-registry/src/lib.rs. Which bytes a
-- text has is a parameter.
use Prim.Native.Nat.{bit_xor}
use soothfast.Base.{
  ℕ, ◌-◌, ◌*◌, ◌%◌, Bool, ◌||◌, List, [], ◌∷◌, Option, none, some, if◌then◌else◌, ◌==◌, ltb, Text,
  codes, split_once,
}
use soothfast.Base.Options.{◌>>=◌}
use soothfast.Base.Parse.{parse_u64, u64_mod}
use soothfast.Base.Format.{concat, display}

-- One round of the loop; the product wraps.
unfoldable pub fnv1a_from : ℕ → List ℕ → ℕ
fnv1a_from hash [] = hash
fnv1a_from hash (b ∷ bs) = fnv1a_from (bit_xor hash b * 1099511628211 % u64_mod) bs

unfoldable pub fnv1a : List ℕ → ℕ
fnv1a = fnv1a_from 14695981039346656037

pub record Shard : Type 0 where
  pub position : ℕ
  pub count : ℕ

abbrev checked : ℕ → ℕ → Option Shard
checked i n = if i == 0 || ltb n i then none else some (record { position = i; count = n })

-- `Shard::parse(s).ok()`
unfoldable pub parse : Text → Option Shard
parse s = do
  (i, n) ← split_once s (codes "/")
  position ← parse_u64 i
  count ← parse_u64 n
  checked position count

unfoldable pub owns : (Text → List ℕ) → Shard → Text → Bool
owns as_bytes shard id = (fnv1a (as_bytes id) % shard.count) == (shard.position - 1)

unfoldable pub show : Shard → Text
show shard = concat (display shard.position ∷ codes "/" ∷ display shard.count ∷ [])
