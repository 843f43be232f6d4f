-- ===== src/Base/JsonAssign.antt =====
-- `v[k] = w` on a JSON value of which the code does not know that it is an object.
use soothfast.Base.Json.{
  Value, null, bool, uint, negint, float, str, arr, obj, get, set_key, update,
}
use soothfast.Base.Chars.{Text}
use soothfast.Base.Tests.{if◌then◌else◌}
use mathlib.Core.Path.{◌≡◌, refl}
use mathlib.Core.Bool.{Bool, true, false}
use mathlib.Core.Option.{Option, none, some}

abbrev pub takes_keys : Value → Bool
takes_keys null = true
takes_keys (obj fs) = true
takes_keys _ = false

-- None stands for the panic.
unfoldable pub assign : Value → Text → Value → Option Value
assign v k w = if takes_keys v then some (set_key v k w) else none

pub takes_keys-set_key : (v : Value) (k : Text) (w : Value) → takes_keys (set_key v k w) ≡ true
unfolding set_key
takes_keys-set_key null k w = refl
takes_keys-set_key (bool b) k w = refl
takes_keys-set_key (uint n) k w = refl
takes_keys-set_key (negint n) k w = refl
takes_keys-set_key (float n) k w = refl
takes_keys-set_key (str s) k w = refl
takes_keys-set_key (arr vs) k w = refl
takes_keys-set_key (obj fs) k w = refl

pub takes_keys-update :
    (k : Text) (f : Value → Value) (v : Value) → takes_keys (update k f v) ≡ takes_keys v
unfolding update
takes_keys-update k f null = refl
takes_keys-update k f (bool b) = refl
takes_keys-update k f (uint n) = refl
takes_keys-update k f (negint n) = refl
takes_keys-update k f (float n) = refl
takes_keys-update k f (str s) = refl
takes_keys-update k f (arr vs) = refl
takes_keys-update k f (obj fs) = refl

-- A value that takes no keys has none, and changes of what is under a key leave it as it is.
pub get-other : (k : Text) (v : Value) → takes_keys v ≡ false → get k v ≡ none
unfolding get
get-other k null h = refl
get-other k (bool b) h = refl
get-other k (uint n) h = refl
get-other k (negint n) h = refl
get-other k (float n) h = refl
get-other k (str s) h = refl
get-other k (arr vs) h = refl
get-other k (obj fs) h = absurd (clash h)
  where
    clash : true ≡ false → ⊥
    clash q = cc

pub update-other :
    (k : Text) (f : Value → Value) (v : Value) → takes_keys v ≡ false → update k f v ≡ v
unfolding update
update-other k f null h = refl
update-other k f (bool b) h = refl
update-other k f (uint n) h = refl
update-other k f (negint n) h = refl
update-other k f (float n) h = refl
update-other k f (str s) h = refl
update-other k f (arr vs) h = refl
update-other k f (obj fs) h = absurd (clash h)
  where
    clash : true ≡ false → ⊥
    clash q = cc
