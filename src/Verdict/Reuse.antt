-- ===== src/Verdict/Reuse.antt =====
-- `parse_reuse`, `one_sided` and `two_sided` of cargo-soothfast/src/verdict.rs: the counts in the
-- line that the gate prints about stored measurements.
use soothfast.Base.{
  List, [], ◌∷◌, Option, none, some, Text, codes, strip_prefix, split_once, or_else, map,
}
use soothfast.Base.Parse.{parse_u64, split_whitespace, split, trim, trim_start_matches}
use soothfast.Base.Options.{◌>>=◌, first, last, add_u64}
use soothfast.Base.Lines.{lines}
use soothfast.Verdict.Types.{Reuse, reuse_line, reuse_one_sided}

unfoldable pub one_sided : Text → Option Reuse
one_sided line = do
  (before, rest) ← split_once line reuse_one_sided
  counts ← last (split_whitespace before)
  (covered, total) ← split_once counts (codes "/")
  measuring ← strip_prefix (trim (trim_start_matches rest b',')) (codes "measuring ")
  c ← parse_u64 covered
  t ← parse_u64 total
  word ← first (split_whitespace measuring)
  m ← parse_u64 word
  some (record { covered = c; total = t; measuring = m })

-- One part between commas: `measuring N`, or `SIDE C/T`, whose counts are added up.
unfoldable pub add_part : Reuse → Text → Option Reuse
add_part reuse part = elim (strip_prefix part (codes "measuring ")) [
  | some n ↦ do
    word ← first (split_whitespace n)
    m ← parse_u64 word
    some (record reuse { measuring = m })
  | none ↦ do
    (side, counts) ← split_once part (codes " ")
    (covered, total) ← split_once counts (codes "/")
    c ← parse_u64 covered
    t ← parse_u64 total
    some (record reuse { covered = add_u64 reuse.covered c; total = add_u64 reuse.total t })
]

unfoldable pub add_parts : Reuse → List Text → Option Reuse
add_parts reuse [] = some reuse
add_parts reuse (part ∷ parts) = add_part reuse part >>= λ r. add_parts r parts

unfoldable pub two_sided : Text → Option Reuse
unfolding add_parts add_part
two_sided line = do
  (before, rest) ← split_once line reuse_line
  add_parts (record { covered = 0; total = 0; measuring = 0 })
      (map trim (split (trim_start_matches rest b':') b','))

unfoldable pub find_reuse : List Text → Option Reuse
find_reuse [] = none
find_reuse (l ∷ ls) = or_else (or_else (two_sided l) (one_sided l)) (find_reuse ls)

unfoldable pub parse_reuse : Text → Option Reuse
unfolding find_reuse
parse_reuse output = find_reuse (lines output)
