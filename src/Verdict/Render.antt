-- ===== src/Verdict/Render.antt =====
-- `render` and `fit` of cargo-soothfast/src/verdict.rs: the comment body, under the size limit.
use soothfast.Base.{
  ℕ, zero, suc, ◌+◌, List, [], ◌∷◌, Option, none, some, if◌then◌else◌, ltb, leb, ◌==◌, Text, codes,
  map, length, keep,
}
use soothfast.Base.Format.{concat, display, replace}
use soothfast.Verdict.Types.{
  Verdict, errored, regressed, pass, nothing_to_compare, rank, name, Reuse, Record, body_limit,
  truncated,
}

abbrev pub fence : Text
fence = codes "```"

-- `r.tail.replace("```", "` ` `")`
unfoldable pub fenced : Text → Text
fenced t = replace fence (codes "` ` `") t

unfoldable pub count : Verdict → List Record → ℕ
count v rs = length (keep (λ (r : Record). rank r.verdict == rank v) rs)

unfoldable pub header : List Record → Text
header rs = concat (
    codes "## soothfast verdict\n"
    ∷ display (length rs)
    ∷ codes " projects: "
    ∷ display (count regressed rs)
    ∷ codes " regressed, "
    ∷ display (count errored rs)
    ∷ codes " errored, "
    ∷ display (count pass rs + count nothing_to_compare rs)
    ∷ codes " pass\n"
    ∷ [])

unfoldable pub accepted_note : List Record → Option Text → Text
accepted_note rs none = []
accepted_note rs (some label) =
    if ltb 0 (count regressed rs)
    then concat (codes "\nRegressions accepted by the `" ∷ label ∷ codes "` label.\n" ∷ [])
    else []

unfoldable pub reuse_note : Option Reuse → Text
reuse_note none = []
reuse_note (some u) = concat (
    codes " | "
    ∷ display u.covered
    ∷ codes "/"
    ∷ display u.total
    ∷ codes " items covered, measuring "
    ∷ display u.measuring
    ∷ [])

unfoldable pub section : Record → Text
section r = concat (
    codes "\n### "
    ∷ r.name
    ∷ codes "\n"
    ∷ name r.verdict
    ∷ (if r.flaky then codes " (flaky)" else [])
    ∷ (if r.unevaluated then codes " (claims not evaluated)" else [])
    ∷ codes " | "
    ∷ r.kind
    ∷ codes " | "
    ∷ display r.seconds
    ∷ codes "s"
    ∷ reuse_note r.reuse
    ∷ codes "\n```\n"
    ∷ fenced r.tail
    ∷ codes "\n```\n"
    ∷ [])

unfoldable pub render : List Record → Option Text → Text
render rs accepted = concat (header rs ∷ accepted_note rs accepted ∷ map section rs)

-- `records[i].tail = TRUNCATED`
unfoldable pub empty_at : ℕ → List Record → List Record
empty_at i [] = []
empty_at zero (r ∷ rs) = record r { tail = truncated } ∷ rs
empty_at (suc i) (r ∷ rs) = r ∷ empty_at i rs

-- `for i in (0..len).rev()`: the index goes down to `i`, and the loop leaves with the body.
unfoldable pub fit_loop : ℕ → List Record → Option Text → Text → Text
fit_loop zero rs accepted body = body
fit_loop (suc i) rs accepted body =
    let shorter = fit_loop i (empty_at i rs) accepted (render (empty_at i rs) accepted) in
    if leb (length body) body_limit then body else shorter

unfoldable pub fit : List Record → Option Text → Text
unfolding fit_loop
fit rs accepted = fit_loop (length rs) rs accepted (render rs accepted)
