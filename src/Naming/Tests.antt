-- ===== src/Naming/Tests.antt =====
-- Runs of the name transforms, and each theorem about them at a concrete input.
use soothfast.Base.{◌≡◌, refl, false, codes}
use soothfast.Base.Parse.{trim_start_matches}
use soothfast.Naming.{
  snake_step, snake_loop, trim_end_underscores, trim_underscores, snake, sanitize, env_prefix,
  starts_with_digit,
}
use soothfast.Naming.Identifiers.{
  Of, IsIdentifier, is_snake_char, is_word_char, snake-IsIdentifier, sanitize_lem,
}

camel_case_flattens : snake (codes "getBatchQuotes") ≡ codes "get_batch_quotes"
unfolding snake trim_underscores trim_end_underscores trim_start_matches snake_loop snake_step
camel_case_flattens = refl

leading_digits_are_prefixed : snake (codes "50DayAverage") ≡ codes "_50_day_average"
unfolding snake trim_underscores trim_end_underscores trim_start_matches snake_loop snake_step
leading_digits_are_prefixed = refl

scopes_are_dropped : env_prefix (codes "@acme/items") ≡ codes "ACME_ITEMS"
unfolding env_prefix trim_underscores trim_end_underscores trim_start_matches
scopes_are_dropped = refl

snake-IsIdentifier_example : IsIdentifier is_snake_char (snake (codes "Retry-After"))
snake-IsIdentifier_example = snake-IsIdentifier (codes "Retry-After")

sanitize_lem_example :
    Of is_word_char (sanitize (codes "50Day"))
    × (starts_with_digit (sanitize (codes "50Day")) ≡ false)
    × (Of is_word_char (codes "50Day")
        → starts_with_digit (codes "50Day") ≡ false
        → sanitize (codes "50Day") ≡ codes "50Day")
sanitize_lem_example = sanitize_lem (codes "50Day")
