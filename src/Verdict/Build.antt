-- ===== src/Verdict/Build.antt =====
-- `classify` and `build` of cargo-soothfast/src/verdict.rs: from a finished job to its record.
use soothfast.Base.{
  ℕ, ◌≡◌, Bool, true, false, not, ◌&&◌, ◌||◌, [], ◌∷◌, arith, ◌==◌, if◌then◌else◌, Text, codes,
  text_eq, contains,
}
use soothfast.Verdict.Types.{
  Verdict, errored, regressed, pass, nothing_to_compare, Record, nothing_to_compare_note,
  claims_skipped,
}
use soothfast.Verdict.Ansi.{strip_ansi}
use soothfast.Verdict.Output.{tail, drop_warnings}
use soothfast.Verdict.Reuse.{parse_reuse}
use soothfast.Verdict.Report.{fails}

-- The exit code of a job, an `i32`.
pub data ExitCode : Type 0 where
  pos negsuc : ℕ → ExitCode

abbrev pub code_is : ℕ → ExitCode → Bool
code_is n (pos k) = k == n
code_is n (negsuc k) = false

-- The kinds whose failures are perf regressions.
abbrev pub is_perf : Text → Bool
is_perf kind = text_eq kind (codes "rust") || text_eq kind (codes "import")

abbrev pub is_errored : Verdict → Bool
is_errored errored = true
is_errored _ = false

unfoldable pub classify : ExitCode → Text → Text → Verdict
classify code kind output =
    if code_is 0 code
    then (if contains output nothing_to_compare_note then nothing_to_compare else pass)
    else if code_is 1 code && is_perf kind
    then regressed
    else errored

unfoldable pub build : Text → Text → ExitCode → Text → ℕ → Record
build name kind code output seconds =
    let output = strip_ansi output in
    let verdict = classify code kind output in
    record {
      name = name;
      kind = kind;
      verdict = verdict;
      tail = if is_errored verdict then tail output else tail (drop_warnings output);
      reuse = parse_reuse output;
      seconds = seconds;
      flaky = false;
      unevaluated = text_eq kind (codes "docs") && contains output claims_skipped;
    }

-- A recorded job fails the check unless it exited with 0, or it is a perf job that exited with 1 and
-- regressions are accepted: no label waives a docs or test failure, or any other exit code.
pub fails-build :
    (name kind : Text) (code : ExitCode) (output : Text) (seconds : ℕ) (accepted : Bool)
    → fails (build name kind code output seconds ∷ []) accepted
      ≡ (not (code_is 0 code) && not (accepted && (code_is 1 code && is_perf kind)))
unfolding fails build classify
fails-build name kind code output seconds accepted = ground arith
