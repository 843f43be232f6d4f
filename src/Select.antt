-- ===== src/Select.antt =====
-- cargo-soothfast/src/test/select.rs: which workspace packages a change can affect. The calls of cargo
-- and git that supply the packages and the changed files are arguments here.
pub mod Dependents
pub mod Visit
pub mod Closure
pub mod Effect
pub mod Scopes
mod Tests
use soothfast.Base.{
  ℕ, suc, ◌+◌, Bool, true, false, not, ◌&&◌, ◌||◌, List, [], ◌∷◌, map, Option, none, some,
  if◌then◌else◌, ltb, Text, codes, text_eq, mem_text, starts_with, strip_prefix, any, keep, length,
  drop,
}
use soothfast.Base.Parse.{is_empty}
use soothfast.Base.BTreeMap.{BTreeMap, get}
use soothfast.Base.BTreeSet.{BTreeSet, insert, from_list}
use soothfast.Glob.{matches}
use Dependents.{Package, with_dependents}

pub record AllowList : Type 0 where
  pub header : Text
  pub files : List Text

pub record TestConfig : Type 0 where
  pub ignore : List Text
  pub inputs : List Text
  pub env : List Text
  pub ci : Option Bool
  pub retries : ℕ
  pub packages : BTreeMap AllowList

pub record Selection : Type 0 where
  pub names : BTreeSet
  pub everything_because : Option Text

pub data Scope : Type 0 where
  ignored workspace : Scope
  affects : Text → Scope

abbrev pub global_files : List Text
global_files =
    codes "Cargo.toml"
    ∷ codes "Cargo.lock"
    ∷ codes "rust-toolchain"
    ∷ codes "rust-toolchain.toml"
    ∷ codes ".cargo/config"
    ∷ codes ".cargo/config.toml"
    ∷ []

unfoldable pub matches_any : List Text → Text → Bool
matches_any globs file = any (λ g. matches g file) globs

-- Whether the package's manifest dir holds the file.
unfoldable pub holds : Text → Package → Bool
holds file p =
    is_empty p.dir
    || (elim (strip_prefix file p.dir) [ some rest ↦ starts_with rest (codes "/") | none ↦ false ])

-- Of two packages with equally long dirs the later one.
unfoldable pub better : Package → Package → Package
better b p = if ltb (length p.dir) (length b.dir) then b else p

-- `max_by_key`: of several with the longest dir the last.
unfoldable pub longest : Option Package → List Package → Option Package
longest best [] = best
longest none (p ∷ ps) = longest (some p) ps
longest (some b) (p ∷ ps) = longest (some (better b p)) ps

unfoldable pub owner : List Package → Text → Option Package
unfolding longest better holds
owner pkgs file = longest none (keep (holds file) pkgs)

-- The path behind the package's dir.
abbrev pub relative_to : Package → Text → Text
relative_to p file = if is_empty p.dir then file else drop (length p.dir + 1) file

-- Whether an allow-list leaves the file out.
abbrev pub left_out : Option AllowList → Text → Bool
left_out none rel = false
left_out (some list) rel =
    not (text_eq rel (codes "Cargo.toml")) && not (matches_any list.files rel)

abbrev owned_scope : TestConfig → Text → Option Package → Scope
owned_scope cfg file none = workspace
owned_scope cfg file (some p) =
    if left_out (get p.name cfg.packages) (relative_to p file) then ignored else affects p.name

unfoldable pub classify : List Package → TestConfig → Text → Scope
classify pkgs cfg file =
    if matches_any cfg.inputs file
    then workspace
    else if matches_any cfg.ignore file
    then ignored
    else if mem_text file global_files
    then workspace
    else owned_scope cfg file (owner pkgs file)

-- Every package, with the reason.
unfoldable pub everything : List Package → Text → Selection
everything pkgs because = record {
  names = from_list (map (λ (p : Package). p.name) pkgs);
  everything_because = some because;
}

-- The loop over the changed files, with the names taken so far.
unfoldable pub select_loop : List Package → TestConfig → BTreeSet → List Text → Selection
select_loop pkgs cfg direct [] = record {
  names = with_dependents pkgs direct;
  everything_because = none;
}
select_loop pkgs cfg direct (file ∷ files) = elim (classify pkgs cfg file) [
  | workspace ↦ everything pkgs file
  | ignored ↦ select_loop pkgs cfg direct files
  | affects name ↦ select_loop pkgs cfg (insert name direct) files
]

unfoldable pub select : List Package → BTreeSet → TestConfig → Selection
unfolding select_loop
select pkgs changed cfg = select_loop pkgs cfg [] changed
