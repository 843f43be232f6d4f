-- ===== src/Verdict/Tests.antt =====
-- Runs of the verdict's operations, and each theorem about them at a concrete input.
use mathlib.Core.List.{Perm}
use mathlib.Core.List.Perm
use mathlib.Core.Option
use soothfast.Base.{
  ℕ, ◌≡◌, refl, true, false, not, ◌&&◌, ◌||◌, List, [], ◌∷◌, ◌++◌, none, some, arith, if◌then◌else◌,
  Text, codes, text_eq, split_once, any,
}
use soothfast.Base.BTreeMap.{get, IsOrdered}
use soothfast.Verdict.Types.{Verdict, regressed, pass, Record}
use soothfast.Verdict.Ansi.{strip_ansi, strip_ansi_lem, strip_ansi-csi, IsClean, escape}
use soothfast.Verdict.Absorb.{outcome, combine}
use soothfast.Verdict.Fold.{fold_loop, split_shard}
use soothfast.Verdict.Shards.{merged, join_outcomes, fold_loop_lem, fold_loop-perm}
use soothfast.Verdict.Report.{fails, sort_records, merge_exit}
use soothfast.Verdict.Sort.{IsWorstFirst, sort_records_lem}
use soothfast.Verdict.Gate.{unseen, merge_exit_lem}
use soothfast.Verdict.Build.{pos, build, code_is, is_perf, fails-build}
use soothfast.Verdict.Json.{to_json, from_json, reread, from_json-to_json}
use soothfast.Verdict.Render.{fenced, fit}
use soothfast.Verdict.Fit.{Fitted, fit-Fitted}
use soothfast.Verdict.Fence.{closes_fence, fenced-closed}

abbrev shard : Text → Verdict → Text → ℕ → Record
shard n v t s = record {
  name = n;
  kind = codes "rust";
  verdict = v;
  tail = t;
  reuse = some (record { covered = 2; total = 3; measuring = 1 });
  seconds = s;
  flaky = false;
  unevaluated = false;
}

abbrev first_shard : Record
first_shard = shard (codes "pkg#1/2") pass (codes "fine") 10

abbrev second_shard : Record
second_shard = shard (codes "pkg#2/2") regressed (codes "slow") 20

abbrev both : List Record
both = first_shard ∷ second_shard ∷ []

abbrev docs_expected : List (Text × Text)
docs_expected = (codes "docs", codes "docs") ∷ []

shards_fold :
    Option.map outcome (get (codes "pkg") (fold_loop [] both))
    ≡ some (record {
      verdict = regressed;
      reuse = some (record { covered = 4; total = 6; measuring = 2 });
      seconds = 20;
      flaky = false;
      unevaluated = false;
    })
unfolding merged join_outcomes text_eq split_shard split_once combine
shards_fold = (fold_loop_lem (codes "pkg") both).0

colours_go : strip_ansi (escape ∷ codes "[31mred") ≡ codes "red"
unfolding strip_ansi
colours_go = refl

merge_exit_lem_example :
    merge_exit both docs_expected (some (codes "perf-ok"))
    ≡ (if fails both true || any (unseen both) docs_expected then 1 else 0)
merge_exit_lem_example = merge_exit_lem both docs_expected (some (codes "perf-ok"))

fails-build_example :
    fails (build (codes "docs") (codes "docs") (pos 1) (codes "drift") 3 ∷ []) true
    ≡ (not (code_is 0 (pos 1)) && not (true && (code_is 1 (pos 1) && is_perf (codes "docs"))))
fails-build_example = fails-build (codes "docs") (codes "docs") (pos 1) (codes "drift") 3 true

fold_loop_lem_example :
    (Option.map outcome (get (codes "pkg") (fold_loop [] both)) ≡ merged (codes "pkg") both)
    × IsOrdered (fold_loop [] both)
fold_loop_lem_example = fold_loop_lem (codes "pkg") both

fold_loop-perm_example :
    Option.map outcome (get (codes "pkg") (fold_loop [] both))
    ≡ Option.map outcome (get (codes "pkg") (fold_loop [] (second_shard ∷ first_shard ∷ [])))
fold_loop-perm_example =
    fold_loop-perm (codes "pkg") both (second_shard ∷ first_shard ∷ [])
      (Perm.swap second_shard first_shard [])

sort_records_lem_example : Perm (sort_records both) both × IsWorstFirst (sort_records both)
sort_records_lem_example = sort_records_lem both

fit-Fitted_example : (k : ℕ) × Fitted both none (fit both none) k
fit-Fitted_example = fit-Fitted both none

fenced-closed_example : closes_fence true (fenced (codes "a\n`````\n```")) ≡ false
fenced-closed_example = fenced-closed (codes "a\n`````\n```")

from_json-to_json_example :
    from_json (λ bits. bits) (to_json second_shard) ≡ some (reread second_shard)
from_json-to_json_example = from_json-to_json (λ bits. bits) second_shard

strip_ansi_lem_example :
    IsClean (strip_ansi (escape ∷ codes "[1mbold"))
    × (IsClean (escape ∷ codes "[1mbold")
        → strip_ansi (escape ∷ codes "[1mbold") ≡ escape ∷ codes "[1mbold")
    × (strip_ansi (strip_ansi (escape ∷ codes "[1mbold")) ≡ strip_ansi (escape ∷ codes "[1mbold"))
strip_ansi_lem_example = strip_ansi_lem (escape ∷ codes "[1mbold")

strip_ansi-csi_example :
    strip_ansi (codes "a" ++ (escape ∷ b'[' ∷ (codes "31" ++ (b'm' ∷ codes "red"))))
    ≡ codes "a" ++ strip_ansi (codes "red")
strip_ansi-csi_example =
    strip_ansi-csi (codes "a") (codes "31") b'm' (codes "red") (omega arith) (refl, (refl, tt)) refl
