-- ===== src/Unmeasured/Written.antt =====
-- Entries as they are written: their names, and what is read of a list of them.
use soothfast.Base.{
  ◌≡◌, refl, ap, ◌∙◌, false, List, [], ◌∷◌, map, Option, none, some, Text, codes, text_eq, All,
}
use soothfast.Base.Options.{◌>>=◌, ok}
use soothfast.Base.Parse.{is_empty}
use soothfast.Base.Json.{Value, get, index, get_field, set_key, set_field, as_str}
use soothfast.Unmeasured.{
  Unmeasured, Reason, to_json, from_json, is_legacy, read_entries, read_strings, parse_reason,
  read_metrics, read_except,
}
use soothfast.Unmeasured.Words.{from_json-to_json_entry}

abbrev pub IsNamed : Unmeasured → Type 0
IsNamed u = is_empty u.package_name ≡ false

bind-some :
    {A B : Type 0} (o : Option A) (f : A → Option B) (b : B)
    → (o >>= f) ≡ some b
    → (a : A) × (o ≡ some a) × (f a ≡ some b)
bind-some none f b h = cc
bind-some (some a) f b h = (a, refl, h)

pub from_json-package :
    (v : Value) (u : Unmeasured)
    → from_json v ≡ some u
    → as_str (index v (codes "package")) ≡ some u.package_name
unfolding from_json
from_json-package v u h =
    let (n, e, h1) = bind-some (as_str (index v (codes "package"))) _ u h in
    let (w, _, h2) = bind-some (as_str (index v (codes "reason"))) _ u h1 in
    let (r, _, h3) = bind-some (parse_reason w) _ u h2 in
    let (d, _, h4) = bind-some (as_str (index v (codes "detail"))) _ u h3 in
    let (is, _, h5) = bind-some (read_strings (index v (codes "items"))) _ u h4 in
    let (ms, _, h6) = bind-some (read_metrics (get (codes "metrics") v)) _ u h5 in
    let (ex, _, h7) = bind-some (read_except (get (codes "except_imported") v)) _ u h6 in
    e ∙ same n r d is ms ex h7
  where
    same :
        (n : Text) (r : Reason) (d : Text) (is ms : List Text) (ex : Option (List Text))
        → some (record {
          package_name = n;
          reason = r;
          detail = d;
          items = is;
          metrics = ms;
          except_imported = ex;
        })
          ≡ some u
        → some n ≡ some u.package_name
    same n r d is ms ex q = ap (λ o. o >>= λ (w : Unmeasured). some w.package_name) q

legacy_fields :
    (n : Text) (r : Reason) (d : Text) (is ms : List Text) (ex : Option (List Text))
    → let v : Unmeasured = record {
      package_name = n;
      reason = r;
      detail = d;
      items = is;
      metrics = ms;
      except_imported = ex;
    } in
      is_legacy (to_json v) ≡ is_empty n
unfolding is_legacy to_json index get get_field set_key set_field text_eq
legacy_fields [] r d is [] none = refl
legacy_fields [] r d is [] (some ps) = refl
legacy_fields [] r d is (m ∷ ms) none = refl
legacy_fields [] r d is (m ∷ ms) (some ps) = refl
legacy_fields (c ∷ n) r d is [] none = refl
legacy_fields (c ∷ n) r d is [] (some ps) = refl
legacy_fields (c ∷ n) r d is (m ∷ ms) none = refl
legacy_fields (c ∷ n) r d is (m ∷ ms) (some ps) = refl

pub is_legacy-to_json : (u : Unmeasured) → is_legacy (to_json u) ≡ is_empty u.package_name
is_legacy-to_json u =
    legacy_fields u.package_name u.reason u.detail u.items u.metrics u.except_imported

pub read_entries-to_json :
    (us : List Unmeasured) → All IsNamed us → read_entries (map to_json us) ≡ ok us
unfolding read_entries
read_entries-to_json [] a = refl
read_entries-to_json (u ∷ us) a =
    rw
      (
        is_legacy-to_json u ∙ a.0,
        from_json-to_json_entry u,
        read_entries-to_json us a.1,
        read_entries,
      )
      refl
