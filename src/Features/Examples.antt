-- ===== src/Features/Examples.antt =====
-- The theorems on features, nimble-rs-sys/gen/features.rs, at concrete inputs, and tests.
use nimble_rs.Base.{◌≡◌, ◌↔◌, refl, List, [], ◌∷◌, arith, some}
use Prim.Native.String.{String}
use text.Mathlib.TextEquality.{eq_iff}
use nimble_rs.Features.Tables.{prebuilt_features}
use nimble_rs.Features.Knobs.{get, insert, insert_all}
use nimble_rs.Features.Parse.{suffix_value, strip_prefix, codes, parse_u32, digits}
use nimble_rs.Features.Resolve.{
  contains, val_settings_for, plain_settings, apply_features, apply_families, max_value,
}
use nimble_rs.Features.Prebuilt.{
  active_val_settings, active_features, feature_vars, sort, insert_sorted, prebuilt_validity, valid,
  invalid, changed, changes, additions, deltas,
}
use nimble_rs.Features.Delta.{prebuilt_validity-equal}
use nimble_rs.Features.Same.{val_settings_for-same}
use nimble_rs.Features.Settings.{Resolved, val_settings_for-Resolved}

-- The largest number of the family counts, and a suffix that is no number does not.
connections_test :
    get "BLE_MAX_CONNECTIONS"
      (val_settings_for ("MAX_CONNECTIONS_6" ∷ "MAX_CONNECTIONS_x" ∷ "MAX_CONNECTIONS_12" ∷ []))
    ≡ some 12
unfolding val_settings_for plain_settings apply_features apply_families max_value contains get
    insert insert_all suffix_value strip_prefix parse_u32 digits codes
connections_test = refl

-- Environment variables of the features of the committed libraries, and another.
abbrev prebuilt_vars : List String
prebuilt_vars =
    "CARGO_FEATURE_SM" ∷ "CARGO_FEATURE_CENTRAL" ∷ "PATH" ∷ "CARGO_FEATURE_BROADCASTER"
    ∷ "CARGO_FEATURE_PERIPHERAL" ∷ "CARGO_FEATURE_OBSERVER" ∷ []

prebuilt_test : prebuilt_validity prebuilt_vars ≡ valid
unfolding prebuilt_validity deltas changes additions active_val_settings active_features
    feature_vars sort insert_sorted val_settings_for plain_settings apply_features apply_families
    max_value contains get insert insert_all suffix_value strip_prefix
prebuilt_test = refl

prebuilt_delta_test :
    prebuilt_validity ("CARGO_FEATURE_LOG_LEVEL_INFO" ∷ prebuilt_vars)
    ≡ invalid (changed "LOG_LEVEL" 255 1 ∷ [])
unfolding prebuilt_validity deltas changes additions active_val_settings active_features
    feature_vars sort insert_sorted val_settings_for plain_settings apply_features apply_families
    max_value contains get insert insert_all suffix_value strip_prefix
prebuilt_delta_test = refl

prebuilt_validity-equal_example : (prebuilt_validity prebuilt_vars ≡ valid) ↔ (
    (k : String)
    → get k (active_val_settings prebuilt_vars) ≡ get k (val_settings_for prebuilt_features))
prebuilt_validity-equal_example = prebuilt_validity-equal prebuilt_vars

val_settings_for-same_example :
    val_settings_for ("SM" ∷ "CENTRAL" ∷ "SM" ∷ []) ≡ val_settings_for ("CENTRAL" ∷ "SM" ∷ [])
val_settings_for-same_example =
    val_settings_for-same ("SM" ∷ "CENTRAL" ∷ "SM" ∷ []) ("CENTRAL" ∷ "SM" ∷ [])
      (λ f. unfold contains in ground (arith, eq_iff "SM" f, eq_iff "CENTRAL" f))

val_settings_for-Resolved_example :
    Resolved ("SM_SC_ONLY" ∷ "SM" ∷ []) (val_settings_for ("SM_SC_ONLY" ∷ "SM" ∷ []))
val_settings_for-Resolved_example = val_settings_for-Resolved ("SM_SC_ONLY" ∷ "SM" ∷ [])
