-- ===== src/Textdiff/Hunks.antt =====
-- `Hunk` and `unified` of cargo-soothfast/src/init/textdiff.rs.
use soothfast.Base.{
  ℕ, ◌+◌, ◌-◌, ◌*◌, Bool, false, not, ◌&&◌, List, [], ◌∷◌, ◌++◌, foldl, Option, none, some,
  if◌then◌else◌, ltb, ◌==◌, Text, codes, text_eq, is_some, length, take, drop,
}
use soothfast.Base.Lines.{newline, push_front}
use soothfast.Base.Format.{concat, display, replace}
use soothfast.Textdiff.{Op, keep, del, add, edits}

abbrev pub context : ℕ
context = 3

-- `split_inclusive('\n')`
unfoldable pub split_inclusive : Text → List Text
split_inclusive [] = []
split_inclusive (c ∷ s) =
    let rest = split_inclusive s in if c == newline then (c ∷ []) ∷ rest else push_front c rest

pub record Hunk : Type 0 where
  pub old_start : ℕ
  pub new_start : ℕ
  pub old : ℕ
  pub new : ℕ
  pub body : Text

-- `line.strip_suffix('\n').unwrap_or(line)` and `line.ends_with('\n')`
abbrev pub without_end : Text → Text
without_end [] = []
without_end (c ∷ []) = if c == newline then [] else c ∷ []
without_end (c ∷ d ∷ s) = c ∷ without_end (d ∷ s)

abbrev pub ends : Text → Bool
ends [] = false
ends (c ∷ []) = c == newline
ends (c ∷ d ∷ s) = ends (d ∷ s)

unfoldable pub line : Hunk → ℕ → Text → Hunk
line hunk mark l = record hunk {
  body =
      hunk.body
      ++ mark
        ∷ (without_end l
            ++ newline ∷ (if ends l then [] else codes "\\ No newline at end of file\n"));
  old = hunk.old + (if mark == b'+' then 0 else 1);
  new = hunk.new + (if mark == b'-' then 0 else 1);
}

abbrev pub start : ℕ → ℕ → ℕ
start at len = if len == 0 then at else at + 1

-- What `finish` appends to the output.
unfoldable pub finish : Hunk → Text
finish h = concat (
    codes "@@ -"
    ∷ display (start h.old_start h.old)
    ∷ codes ","
    ∷ display h.old
    ∷ codes " +"
    ∷ display (start h.new_start h.new)
    ∷ codes ","
    ∷ display h.new
    ∷ codes " @@\n"
    ∷ h.body
    ∷ [])

-- The variables of the loop; `current` is the hunk `open` being written.
pub record Writer : Type 0 where
  pub out : Text
  pub current : Option Hunk
  pub keeps : List Text
  pub seen_old : ℕ
  pub seen_new : ℕ

abbrev pub keep_lines : Hunk → List Text → Hunk
keep_lines = foldl (λ h l. line h b' ' l)

-- Six kept lines are context of the hunk in front of them and of one behind: with more it is closed.
unfoldable pub close_hunk : Writer → Writer
close_hunk w = elim (w.current) [
  | some hunk ↦
      if ltb (2 * context) (length w.keeps)
      then record w {
        out = w.out ++ finish (keep_lines hunk (take context w.keeps));
        current = none;
      }
      else w
  | none ↦ w
]

-- Outside a hunk only the last three kept lines may still become context.
unfoldable pub trim_keeps : Writer → Writer
trim_keeps w =
    if not (is_some w.current) && ltb context (length w.keeps)
    then record w { keeps = drop (length w.keeps - context) w.keeps }
    else w

-- The hunk that a changed line goes to.
abbrev pub open_hunk : Writer → Hunk
open_hunk w = elim (w.current) [
  | some hunk ↦ hunk
  | none ↦ record {
    old_start = w.seen_old - length w.keeps;
    new_start = w.seen_new - length w.keeps;
    old = 0;
    new = 0;
    body = [];
  }
]

unfoldable pub step : Writer → Op → Writer
unfolding close_hunk trim_keeps
step w (keep l) = trim_keeps (
    close_hunk (record w {
      keeps = w.keeps ++ l ∷ [];
      seen_old = w.seen_old + 1;
      seen_new = w.seen_new + 1;
    }))
step w (del l) = record w {
  current = some (line (keep_lines (open_hunk w) w.keeps) b'-' l);
  keeps = [];
  seen_old = w.seen_old + 1;
}
step w (add l) = record w {
  current = some (line (keep_lines (open_hunk w) w.keeps) b'+' l);
  keeps = [];
  seen_new = w.seen_new + 1;
}

unfoldable pub steps : Writer → List Op → Writer
steps w [] = w
steps w (op ∷ ops) = steps (step w op) ops

-- After the loop an open hunk takes three of the kept lines.
unfoldable pub written : Writer → Text
written w = elim (w.current) [
  | some hunk ↦ w.out ++ finish (keep_lines hunk (take context w.keeps))
  | none ↦ w.out
]

abbrev pub fresh : Writer
fresh = record { out = []; current = none; keeps = []; seen_old = 0; seen_new = 0 }

unfoldable pub unified : Text → Text → Text
unified old new =
    if not (text_eq old new)
      && text_eq (replace (codes "\r\n") (codes "\n") old) (replace (codes "\r\n") (codes "\n") new)
    then codes "line endings differ (CRLF against LF)\n"
    else written (steps fresh (edits (split_inclusive old) (split_inclusive new)))
