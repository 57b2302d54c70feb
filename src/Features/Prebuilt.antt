-- ===== src/Features/Prebuilt.antt =====
-- `active_features`, `active_val_settings` and `prebuilt_validity` of nimble-rs-sys/gen/features.rs.
-- The names of the environment's variables are a parameter. An entry of the delta string is given
-- by its parts, and the string by its entries.
use Prim.Native.String.{String, compare}
use text.Mathlib.Text.{is_le}
use nimble_rs.Base.{ℕ, Option, none, some, List, [], ◌∷◌, ◌++◌, if◌then◌else◌, ◌==◌}
use nimble_rs.Features.Tables.{Vals, prebuilt_features}
use nimble_rs.Features.Knobs.{get}
use nimble_rs.Features.Parse.{strip_prefix}
use nimble_rs.Features.Resolve.{val_settings_for}

-- A variable that names a feature adds it.
abbrev pub push_feature : Option String → List String → List String
push_feature none fs = fs
push_feature (some f) fs = f ∷ fs

unfoldable pub feature_vars : List String → List String
feature_vars [] = []
feature_vars (key ∷ keys) = push_feature (strip_prefix key "CARGO_FEATURE_") (feature_vars keys)

unfoldable pub insert_sorted : String → List String → List String
insert_sorted f [] = f ∷ []
insert_sorted f (g ∷ gs) =
    let rest = insert_sorted f gs in if is_le (compare f g) then f ∷ g ∷ gs else g ∷ rest

-- `features.sort`
unfoldable pub sort : List String → List String
sort [] = []
sort (f ∷ fs) = insert_sorted f (sort fs)

-- `active_features`, from the names of the variables
unfoldable pub active_features : List String → List String
active_features vars = sort (feature_vars vars)

-- `active_val_settings`
unfoldable pub active_val_settings : List String → Vals
active_val_settings vars = val_settings_for (active_features vars)

-- An entry of the delta: `~name=reference->value`, `-name=reference` or `+name=value`.
pub data Delta : Type 0 where
  changed : String → (reference value : ℕ) → Delta
  missing : String → (reference : ℕ) → Delta
  extra : String → (value : ℕ) → Delta

-- What `prebuilt_validity` returns.
pub data Validity : Type 0 where
  valid : Validity
  invalid : List Delta → Validity

abbrev pub change : String → ℕ → Option ℕ → List Delta
change name reference none = missing name reference ∷ []
change name reference (some value) =
    if value == reference then [] else changed name reference value ∷ []

-- The loop over the reference.
unfoldable pub changes : Vals → Vals → List Delta
changes active [] = []
changes active ((name, reference) ∷ rest) =
    change name reference (get name active) ++ changes active rest

abbrev pub addition : String → ℕ → Option ℕ → List Delta
addition name value none = extra name value ∷ []
addition name value (some reference) = []

-- The loop over the active settings.
unfoldable pub additions : Vals → Vals → List Delta
additions reference [] = []
additions reference ((name, value) ∷ rest) =
    addition name value (get name reference) ++ additions reference rest

unfoldable pub deltas : (active reference : Vals) → List Delta
deltas active reference = changes active reference ++ additions reference active

abbrev pub verdict : List Delta → Validity
verdict [] = valid
verdict (d ∷ ds) = invalid (d ∷ ds)

-- `prebuilt_validity`
unfoldable pub prebuilt_validity : List String → Validity
prebuilt_validity vars =
    verdict (deltas (active_val_settings vars) (val_settings_for prebuilt_features))
