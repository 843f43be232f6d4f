-- ===== src/Glob/Tests.antt =====
-- Runs of the globs, and each theorem about them at a concrete input.
use soothfast.Base.{◌≡◌, ◌↔◌, refl, true, false, codes, utf8}
use soothfast.Glob.{go, matches}
use soothfast.Glob.Spec.{tokens, Matches}
use soothfast.Glob.Sound.{matches_iff}

crosses : matches (codes "src/**/*.rs") (codes "src/a/b.rs") ≡ true
unfolding matches go
crosses = refl

stays_in_segment : matches (codes "docs/*.md") (codes "docs/x/y.md") ≡ false
unfolding matches go
stays_in_segment = refl

-- A letter of two bytes.
mark_is_one_byte : matches (codes "?") (codes "é") ≡ false
unfolding matches go
mark_is_one_byte = refl

matches_iff_example :
    (matches (codes "a/**/?") (codes "a/b/c") ≡ true)
    ↔ Matches (tokens (utf8 (codes "a/**/?"))) (utf8 (codes "a/b/c"))
matches_iff_example = matches_iff (codes "a/**/?") (codes "a/b/c")
