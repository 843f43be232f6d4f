-- ===== src/Unmeasured/Words.antt =====
-- The words of a reason and the JSON of an entry, written and read.
use soothfast.Base.{
  ◌≡◌, refl, ap, ◌∙◌, List, [], ◌∷◌, map, Option, none, some, arith, Text, text_eq, text_eq→eq,
  Bool-cases, inl, inr,
}
use soothfast.Base.Options.{collect}
use soothfast.Base.Json.{
  str, get, index, get_field, set_key, set_field, strings, as_str, items-items_of,
}
use soothfast.Unmeasured.{
  Reason, identical_binaries, reused_walltime, shard_missing, gate_failed, save_failed, no_parent,
  no_measurement, claims_skipped, not_gated_on_event, stored_run, reasons, reason_text, find_reason,
  parse_reason, Unmeasured, to_json, from_json, read_strings,
}

parse_reason-text : (r : Reason) → parse_reason (reason_text r) ≡ some r
unfolding parse_reason reason_text find_reason text_eq
parse_reason-text identical_binaries = refl
parse_reason-text reused_walltime = refl
parse_reason-text shard_missing = refl
parse_reason-text gate_failed = refl
parse_reason-text save_failed = refl
parse_reason-text no_parent = refl
parse_reason-text no_measurement = refl
parse_reason-text claims_skipped = refl
parse_reason-text not_gated_on_event = refl
parse_reason-text stored_run = refl

find_reason_sound :
    (s : Text) (rs : List Reason) (r : Reason) → find_reason s rs ≡ some r → reason_text r ≡ s
unfolding find_reason
find_reason_sound s [] r h = cc
find_reason_sound s (q ∷ rs) r h = elim (Bool-cases (text_eq (reason_text q) s)) [
  | inl e ↦ text_eq→eq (reason_text r) s (ground (arith, rw (e, find_reason) at h, e))
  | inr e ↦ find_reason_sound s rs r (rw (e, find_reason) at h)
]

-- Each reason is read back from its word, and only from it.
pub parse_reason_lem :
    (s : Text) (r : Reason)
    → (parse_reason s ≡ some r → reason_text r ≡ s) × (parse_reason (reason_text r) ≡ some r)
unfolding parse_reason
parse_reason_lem s r = (find_reason_sound s reasons r, parse_reason-text r)

collect-texts : (ts : List Text) → collect (map as_str (map str ts)) ≡ some ts
unfolding collect
collect-texts [] = refl
collect-texts (t ∷ ts) = rw (collect-texts ts) refl

pub read_strings-strings : (ts : List Text) → read_strings (strings ts) ≡ some ts
unfolding read_strings
read_strings-strings ts =
    ap (λ vs. collect (map as_str vs)) (items-items_of (map str ts)) ∙ collect-texts ts

read_fields :
    (n : Text) (r : Reason) (d : Text) (is ms : List Text) (ex : Option (List Text))
    → let v : Unmeasured = record {
      package_name = n;
      reason = r;
      detail = d;
      items = is;
      metrics = ms;
      except_imported = ex;
    } in
      from_json (to_json v) ≡ some v
unfolding from_json to_json index get get_field set_key set_field text_eq
read_fields n r d is [] none = rw (parse_reason-text r, read_strings-strings is) refl
read_fields n r d is [] (some ps) =
    rw (parse_reason-text r, read_strings-strings is, read_strings-strings ps) refl
read_fields n r d is (m ∷ ms) none =
    rw (parse_reason-text r, read_strings-strings is, read_strings-strings (m ∷ ms)) refl
read_fields n r d is (m ∷ ms) (some ps) =
    rw
      (
        parse_reason-text r,
        read_strings-strings is,
        read_strings-strings (m ∷ ms),
        read_strings-strings ps,
      )
      refl

-- An entry that is written is read back as it was.
pub from_json-to_json_entry : (u : Unmeasured) → from_json (to_json u) ≡ some u
from_json-to_json_entry u =
    read_fields u.package_name u.reason u.detail u.items u.metrics u.except_imported
