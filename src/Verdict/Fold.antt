-- ===== src/Verdict/Fold.antt =====
-- `fold` of cargo-soothfast/src/verdict.rs: one record per project, shards folded into it.
use soothfast.Base.{List, [], ◌∷◌, ◌++◌, Option, none, some, if◌then◌else◌, Text, codes, split_once}
use soothfast.Base.BTreeMap.{BTreeMap, get, insert, values}
use soothfast.Base.Parse.{is_empty}
use soothfast.Base.Lines.{newline}
use soothfast.Verdict.Types.{Record}
use soothfast.Verdict.Absorb.{absorb}

-- `pkg#1/3`: the name before the first `#`, and the shard behind it.
unfoldable pub split_shard : Text → Text × Option Text
split_shard n = elim (split_once n (codes "#")) [
  | some (base, shard) ↦ (base, some shard)
  | none ↦ (n, none)
]

abbrev pub base_name : Record → Text
base_name r = (split_shard r.name).0

-- The output of a shard is headed by it, unless there is none.
unfoldable pub headed_tail : Option Text → Text → Text
headed_tail none t = t
headed_tail (some shard) t =
    if is_empty t then t else codes "-- shard " ++ (shard ++ (codes " --" ++ (newline ∷ t)))

unfoldable pub renamed : Record → Record
renamed r = record r { name = base_name r; tail = headed_tail (split_shard r.name).1 r.tail }

unfoldable pub fold_step : BTreeMap Record → Record → BTreeMap Record
fold_step m r = elim (get (base_name r) m) [
  | some seen ↦ insert (base_name r) (absorb seen (renamed r)) m
  | none ↦ insert (base_name r) (renamed r) m
]

unfoldable pub fold_loop : BTreeMap Record → List Record → BTreeMap Record
fold_loop m [] = m
fold_loop m (r ∷ rs) = fold_loop (fold_step m r) rs

unfoldable pub fold : List Record → List Record
unfolding fold_loop
fold rs = values (fold_loop [] rs)
