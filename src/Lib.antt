-- ===== src/Lib.antt =====
-- soothfast keeps a repository's benchmarks, docs and API descriptions honest: CI jobs measure and check
-- each project, and `cargo soothfast` plans the jobs and turns their results into one verdict.
--
-- Verdict models cargo-soothfast/src/verdict.rs. A job's output becomes a record (Build, with Ansi for
-- strip_ansi, Output for tail and drop_warnings, Reuse for parse_reuse); a record is written as JSON and
-- read back (Json); `merge` folds the shards of a project into one record (Absorb, Fold), adds what was
-- expected and never came, sorts, and exits (Report); the comment is rendered and cut to the limit of
-- the forge (Render). Shards, Sort, Gate, Fit and Fence hold what is proved about these.
-- Glob models cargo-soothfast/src/glob.rs; Glob.Spec is what a pattern means, as a relation.
-- Select models the choice of packages in cargo-soothfast/src/test/select.rs, with the configuration of
-- cargo-soothfast/src/test/config.rs; Select.Dependents is with_dependents, and Select.Effect what a change
-- to a file affects, read off docs/testing.md.
-- Textdiff models cargo-soothfast/src/init/textdiff.rs: the edit script between two lists of lines, and in
-- Hunks the text of the diff. The loop of lcs_edits over two indices is the recursion on what is left of
-- the two lists, with the indices beside them for the table.
-- Reconcile models soothfast-spec/src/reconcile.rs, routes against declared operations, and Agreement
-- models cargo-soothfast/src/agreement.rs, which readings of a counter are stored.
-- Unmeasured models cargo-soothfast/src/unmeasured.rs: the entries of a baseline that say which numbers it
-- does not hold and why; Owners has the items that packages own, and mark_in without its file. Its result is
-- a document, an error, or a panic.
-- Baseline models cargo-soothfast/src/baseline_merge.rs: the files of one CI run become one baseline. Shard is
-- `Shard` of cargo-soothfast/src/invoke.rs with fnv1a of soothfast-registry/src/lib.rs, Merge the loop over the
-- files in `merge_on`, Whole the rest of it, and Unaccounted what names the items of missing shards. An
-- error is a value with the label of the file and what is wrong with it.
-- Which jobs a change starts, cargo-soothfast/src/plan.rs, is in Plan, with what that file uses of
-- cargo-soothfast/src/init/ecosystem.rs, init/ci.rs and test/project.rs; Plan.Jobs is what a workflow gets.
-- Compat models soothfast-spec/src/compat.rs: what a change is and in which order changes are reported,
-- values and entries that come and go, and in Walk and Compare the walk over two schemas, `SchemaDiff`.
-- Size, Pairs and Ends bound the walk; Same, Unchanged, Breaks and Caught hold what it pushes.
-- Dialect models the four comparisons of API descriptions that use Compat: soothfast-spec/src/openapi/diff.rs
-- (Openapi), asyncapi/diff.rs (Asyncapi), graphql/diff.rs (Graphql) and `diff` of mcp.rs (Mcp).
-- Naming models soothfast-sdk/src/naming.rs, names on the wire as identifiers of a generated client.
-- Surface models soothfast-docs/src/diff.rs, what changed between the public surfaces of two builds.
-- Base holds what these use of Rust's standard library, and the JSON values of serde_json by their
-- documented accessors: an object is a list of its fields, a float its bits. Base.JsonAssign is the assignment
-- under a key to a value that need not be an object, which panics then: none stands for the panic.
--
-- A text is the list of its code points; where Glob matches bytes, as the source does, it takes those of UTF-8.
-- A u64 is a natural number, and its sums wrap at 2 ^ 64 as a release build computes them; usize and
-- i32 counts are unbounded. A BTreeMap and a BTreeSet are lists of their entries, sorted by insertion.
-- The worklist of with_dependents runs on fuel, one more round than there are names: each name is queued
-- once at most. The walk over two schemas runs on fuel as well: each pair of references is followed once,
-- and between two of them the old schema gets smaller, so the number of pairs times the size of the
-- document, and the size of the schema, are enough.
--
-- Not modelled: processes, files, the network and the clock; what cargo and git answer is an argument.
-- The rounding of a JSON float to u64 is a parameter of from_json, and the percentage test in f64 one of
-- settle; the text of a JSON value and Rust's to_uppercase are parameters of the comparisons,
-- and the bytes of a text one of the hash that shards an item;
-- the version of an installed toolchain is one of the plan's.
pub mod Base
pub mod Verdict
pub mod Glob
pub mod Select
pub mod Textdiff
pub mod Reconcile
pub mod Agreement
pub mod Unmeasured
pub mod Baseline
pub mod Plan
pub mod Compat
pub mod Dialect
pub mod Naming
pub mod Surface
