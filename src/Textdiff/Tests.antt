-- ===== src/Textdiff/Tests.antt =====
-- Runs of the diff, and each theorem about it at a concrete input.
use soothfast.Base.Format.{display, concat, replace_from}
use soothfast.Base.{starts_with, text_eq, ◌≡◌, ◌≤◌, ◌↔◌, refl, List, [], ◌∷◌, Text, codes, arith}
use soothfast.Textdiff.{row, across, common_prefix, Op, keep, del, add, edits}
use soothfast.Textdiff.Script.{IsScript}
use soothfast.Textdiff.Lcs.{kept}
use soothfast.Textdiff.Shortest.{edits-shortest}
use soothfast.Textdiff.Hunks.{line, finish, step, split_inclusive, steps, written, unified}
use soothfast.Textdiff.Unified.{unified_iff}

abbrev before : List Text
before = codes "a\n" ∷ codes "b\n" ∷ codes "c\n" ∷ []

abbrev after : List Text
after = codes "a\n" ∷ codes "x\n" ∷ codes "c\n" ∷ []

one_line_changes :
    edits before after
    ≡ keep (codes "a\n") ∷ del (codes "b\n") ∷ add (codes "x\n") ∷ keep (codes "c\n") ∷ []
unfolding edits common_prefix text_eq across row
one_line_changes = refl

shown :
    unified (codes "a\nb") (codes "a\nb\n")
    ≡ codes "@@ -1,2 +1,2 @@\n a\n-b\n\\ No newline at end of file\n+b\n"
unfolding unified text_eq replace_from starts_with written steps edits common_prefix split_inclusive
    across row step finish concat display line
shown = refl

edits-shortest_example :
    IsScript (edits before after) before after
    × ((ops : List Op) → IsScript ops before after → kept ops ≤ kept (edits before after))
edits-shortest_example = edits-shortest before after (omega arith)

unified_iff_example : (unified (codes "a\n") (codes "a") ≡ []) ↔ (codes "a\n" ≡ codes "a")
unified_iff_example = unified_iff (codes "a\n") (codes "a")
