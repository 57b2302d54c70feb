-- ===== src/Features/Settings.antt =====
-- What `val_settings_for` of nimble-rs-sys/gen/features.rs gives to each knob.
use Prim.Native.String.{String}
use nimble_rs.Base.{
  ℕ, ◌≡◌, refl, ◌∙◌, Bool, true, false, not, ◌||◌, ◌&&◌, Option, none, some, Bool-cases, inl, inr,
  List, arith, if◌then◌else◌,
}
use nimble_rs.Features.Tables.{
  Vals, val_universe, feature_vals, upstream_test_vals, numeric_families,
}
use nimble_rs.Features.Knobs.{get, last_of}
use nimble_rs.Features.Resolve.{contains, larger, max_value, val_settings_for}
use nimble_rs.Features.Value.{
  overlaid, raised, get-val_settings_for, in_features, in_families, val_settings_for-fixed,
}

-- A knob that is on or off.
abbrev pub flag : Bool → Option ℕ
flag on = some (if on then 1 else 0)

-- The number of a family, but no less than its reset value.
abbrev pub at_least : Option ℕ → ℕ → Option ℕ
at_least none reset = some reset
at_least (some n) reset = some (larger n reset)

-- The shapes that the loops give to a knob's value.
flag_one : (a : Bool) → (if a then some 1 else some 0) ≡ flag a
flag_one true = refl
flag_one false = refl

flag_two : (t a : Bool) → (if t then some 1 else if a then some 1 else some 0) ≡ flag (a || t)
flag_two true true = refl
flag_two true false = refl
flag_two false true = refl
flag_two false false = refl

legacy_shape :
    (t a o : Bool)
    → (if t then some 1 else if a then some 1 else if o then some 0 else some 0) ≡ flag (a || t)
legacy_shape t a o = ground arith

sc_shape :
    (t a o : Bool)
    → (if t then some 1 else if a then some 1 else if o then some 1 else some 0)
      ≡ flag (a || o || t)
sc_shape t a o = ground arith

sc_only_shape :
    (a o : Bool) → (if a then some 0 else if o then some 1 else some 0) ≡ flag (not a && o)
sc_only_shape a o = ground arith

-- The value of `LOG_LEVEL`, where the most verbose level that is enabled wins.
abbrev pub level : (error warn info debug : Bool) → ℕ
level error warn info debug =
    if debug then 0 else if info then 1 else if warn then 2 else if error then 3 else 255

level_shape :
    (error warn info debug : Bool)
    → (if debug
        then some 0
        else if info
        then some 1
        else if warn
        then some 2
        else if error
        then some 3
        else some 255)
      ≡ some (level error warn info debug)
level_shape error warn info debug = ground arith

family_shape :
    (max : Option ℕ) (t : Bool) (test reset : ℕ)
    → raised max (if t then some test else some reset) ≡ at_least max (if t then test else reset)
family_shape none true test reset = refl
family_shape none false test reset = refl
family_shape (some n) true test reset = refl
family_shape (some n) false test reset = refl

neither : (a b : Bool) → (a || b) ≡ false → (a ≡ false) × (b ≡ false)
neither a b e = (ground arith, ground arith)

-- Whether a feature or a family sets a knob.
abbrev pub is_driven : String → Bool
is_driven k = in_features k feature_vals || in_families k numeric_families

fixed_lem :
    (k : String) (fs : List String)
    → (if is_driven k then none else get k (val_settings_for fs)) ≡ (
        if is_driven k
        then none
        else overlaid k
            (contains "UPSTREAM_TEST" fs)
            upstream_test_vals
            (last_of k val_universe none))
fixed_lem k fs = elim (Bool-cases (in_features k feature_vals || in_families k numeric_families)) [
  | inl e ↦ rw e refl
  | inr e ↦
      let (a, b) = neither (in_features k feature_vals) (in_families k numeric_families) e in
      rw e (val_settings_for-fixed k fs a b)
]

-- The settings of a set of features.
pub record Resolved (fs : List String) (m : Vals) : Type 0 where
  pub broadcaster : get "BLE_ROLE_BROADCASTER" m ≡ flag (contains "BROADCASTER" fs)
  pub observer : get "BLE_ROLE_OBSERVER" m ≡ flag (contains "OBSERVER" fs)
  pub peripheral : get "BLE_ROLE_PERIPHERAL" m ≡ flag (contains "PERIPHERAL" fs)
  pub central : get "BLE_ROLE_CENTRAL" m ≡ flag (contains "CENTRAL" fs)
  pub gatts : get "BLE_GATTS" m ≡ flag (contains "PERIPHERAL" fs || contains "UPSTREAM_TEST" fs)
  pub gattc : get "BLE_GATTC" m ≡ flag (contains "CENTRAL" fs || contains "UPSTREAM_TEST" fs)
  pub ext_adv : get "BLE_EXT_ADV" m ≡ flag (contains "EXT_ADV" fs)
  pub log_level :
      get "LOG_LEVEL" m
      ≡ some (
          level
            (contains "LOG_LEVEL_ERROR" fs)
            (contains "LOG_LEVEL_WARN" fs)
            (contains "LOG_LEVEL_INFO" fs)
            (contains "LOG_LEVEL_DEBUG" fs))
  pub sm_legacy : get "BLE_SM_LEGACY" m ≡ flag (contains "SM" fs || contains "UPSTREAM_TEST" fs)
  pub sm_sc :
      get "BLE_SM_SC" m
      ≡ flag (contains "SM" fs || contains "SM_SC_ONLY" fs || contains "UPSTREAM_TEST" fs)
  pub sm_sc_only :
      get "BLE_SM_SC_ONLY" m ≡ flag (not (contains "SM" fs) && contains "SM_SC_ONLY" fs)
  pub coc :
      get "BLE_L2CAP_COC_MAX_NUM" m
      ≡ at_least (max_value "L2CAP_COC_" fs) (if contains "UPSTREAM_TEST" fs then 2 else 0)
  pub connections :
      get "BLE_MAX_CONNECTIONS" m
      ≡ at_least (max_value "MAX_CONNECTIONS_" fs) (if contains "UPSTREAM_TEST" fs then 8 else 4)
  pub msys :
      get "MSYS_1_BLOCK_COUNT" m
      ≡ at_least (max_value "MSYS_COUNT_" fs) (if contains "UPSTREAM_TEST" fs then 100 else 20)
  pub fixed :
      (k : String)
      → (if is_driven k then none else get k m) ≡ (
          if is_driven k
          then none
          else overlaid k
              (contains "UPSTREAM_TEST" fs)
              upstream_test_vals
              (last_of k val_universe none))

-- Whatever the features: each role, the GATT code that rides on it and extended advertising are on as
-- the feature says, the most verbose log level wins, `SM` wins over `SM_SC_ONLY`, and a numeric knob
-- has the largest number that its family enables, but at least its reset value. `UPSTREAM_TEST`
-- switches GATT and pairing on and sets the reset values of the numeric knobs anew. Every other
-- knob has its reset value, or that of `UPSTREAM_TEST`, and a knob of no table has none.
pub val_settings_for-Resolved : (fs : List String) → Resolved fs (val_settings_for fs)
unfolding last_of
val_settings_for-Resolved fs = record {
  broadcaster =
      get-val_settings_for "BLE_ROLE_BROADCASTER" fs ∙ flag_one (contains "BROADCASTER" fs);
  observer = get-val_settings_for "BLE_ROLE_OBSERVER" fs ∙ flag_one (contains "OBSERVER" fs);
  peripheral = get-val_settings_for "BLE_ROLE_PERIPHERAL" fs ∙ flag_one (contains "PERIPHERAL" fs);
  central = get-val_settings_for "BLE_ROLE_CENTRAL" fs ∙ flag_one (contains "CENTRAL" fs);
  gatts =
      get-val_settings_for "BLE_GATTS" fs
      ∙ flag_two (contains "UPSTREAM_TEST" fs) (contains "PERIPHERAL" fs);
  gattc =
      get-val_settings_for "BLE_GATTC" fs
      ∙ flag_two (contains "UPSTREAM_TEST" fs) (contains "CENTRAL" fs);
  ext_adv = get-val_settings_for "BLE_EXT_ADV" fs ∙ flag_one (contains "EXT_ADV" fs);
  log_level =
      get-val_settings_for "LOG_LEVEL" fs
      ∙ level_shape (contains "LOG_LEVEL_ERROR" fs) (contains "LOG_LEVEL_WARN" fs)
          (contains "LOG_LEVEL_INFO" fs) (contains "LOG_LEVEL_DEBUG" fs);
  sm_legacy =
      get-val_settings_for "BLE_SM_LEGACY" fs
      ∙ legacy_shape (contains "UPSTREAM_TEST" fs) (contains "SM" fs) (contains "SM_SC_ONLY" fs);
  sm_sc =
      get-val_settings_for "BLE_SM_SC" fs
      ∙ sc_shape (contains "UPSTREAM_TEST" fs) (contains "SM" fs) (contains "SM_SC_ONLY" fs);
  sm_sc_only =
      get-val_settings_for "BLE_SM_SC_ONLY" fs
      ∙ sc_only_shape (contains "SM" fs) (contains "SM_SC_ONLY" fs);
  coc =
      get-val_settings_for "BLE_L2CAP_COC_MAX_NUM" fs
      ∙ family_shape (max_value "L2CAP_COC_" fs) (contains "UPSTREAM_TEST" fs) 2 0;
  connections =
      get-val_settings_for "BLE_MAX_CONNECTIONS" fs
      ∙ family_shape (max_value "MAX_CONNECTIONS_" fs) (contains "UPSTREAM_TEST" fs) 8 4;
  msys =
      get-val_settings_for "MSYS_1_BLOCK_COUNT" fs
      ∙ family_shape (max_value "MSYS_COUNT_" fs) (contains "UPSTREAM_TEST" fs) 100 20;
  fixed = λ k. fixed_lem k fs;
}
