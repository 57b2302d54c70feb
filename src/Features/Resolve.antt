-- ===== src/Features/Resolve.antt =====
-- `val_settings_for` of nimble-rs-sys/gen/features.rs. Features are in their `CARGO_FEATURE_*` form.
use Prim.Native.String.{String}
use text.Mathlib.Text.{◌==◌ as str_eq}
use nimble_rs.Base.{ℕ, Bool, false, ◌||◌, Option, none, some, List, [], ◌∷◌, if◌then◌else◌, ltb}
use nimble_rs.Features.Tables.{
  Vals, val_universe, feature_vals, upstream_test_vals, numeric_families,
}
use nimble_rs.Features.Knobs.{get, insert, insert_all}
use nimble_rs.Features.Parse.{suffix_value}

-- `features.contains`
unfoldable pub contains : String → List String → Bool
contains f [] = false
contains f (g ∷ gs) = str_eq g f || contains f gs

abbrev pub larger : ℕ → ℕ → ℕ
larger m n = if ltb m n then n else m

abbrev pub max_option : Option ℕ → Option ℕ → Option ℕ
max_option none o = o
max_option (some m) none = some m
max_option (some m) (some n) = some (larger m n)

-- The largest number among the features with a prefix.
unfoldable pub max_value : String → List String → Option ℕ
max_value prefix [] = none
max_value prefix (f ∷ fs) = max_option (suffix_value prefix f) (max_value prefix fs)

abbrev pub unwrap_or_zero : Option ℕ → ℕ
unwrap_or_zero none = 0
unwrap_or_zero (some n) = n

-- The first loop: what the features set, in the order of the table.
unfoldable pub apply_features : List String → List (String × Vals) → Vals → Vals
apply_features features [] vals = vals
apply_features features ((feature, overrides) ∷ rest) vals =
    apply_features features rest
      (if contains feature features then insert_all overrides vals else vals)

-- The last loop's body, with the largest number that is enabled.
abbrev pub raise : String → Option ℕ → Vals → Vals
raise val_name none vals = vals
raise val_name (some max) vals =
    insert val_name (larger max (unwrap_or_zero (get val_name vals))) vals

unfoldable pub apply_families : List String → List (String × String) → Vals → Vals
apply_families features [] vals = vals
apply_families features ((prefix, val_name) ∷ rest) vals =
    apply_families features rest (raise val_name (max_value prefix features) vals)

-- The settings before the numeric families.
unfoldable pub plain_settings : List String → Vals
plain_settings features =
    let vals = apply_features features feature_vals (insert_all val_universe []) in
    if contains "UPSTREAM_TEST" features then insert_all upstream_test_vals vals else vals

-- `val_settings_for`
unfoldable pub val_settings_for : List String → Vals
val_settings_for features = apply_families features numeric_families (plain_settings features)
