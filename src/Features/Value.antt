-- ===== src/Features/Value.antt =====
-- The loops of `val_settings_for`, nimble-rs-sys/gen/features.rs, seen from one knob.
use Prim.Native.String.{String}
use text.Mathlib.Text.{◌==◌ as str_eq}
use text.Mathlib.TextEquality.{eq_iff}
use nimble_rs.Base.{
  ℕ, ◌≡◌, refl, ◌∙◌, ap, Bool, true, false, ◌||◌, Option, none, some, List, [], ◌∷◌, arith,
  if◌then◌else◌,
}
use nimble_rs.Features.Tables.{
  Vals, val_universe, feature_vals, upstream_test_vals, numeric_families,
}
use nimble_rs.Features.Knobs.{get, insert_all, last_of, get-insert, get-insert_all}
use nimble_rs.Features.Resolve.{
  contains, larger, unwrap_or_zero, max_value, apply_features, raise, apply_families,
  plain_settings, val_settings_for,
}

-- Whether a list of pairs gives a knob a value.
abbrev pub names : String → Vals → Bool
names k [] = false
names k ((j, v) ∷ kvs) = str_eq j k || names k kvs

-- What a list of pairs makes of a knob's value, if it is used.
abbrev pub overlaid : String → Bool → Vals → Option ℕ → Option ℕ
overlaid k used kvs o = if names k kvs then (if used then last_of k kvs o else o) else o

last_of-unnamed :
    (k : String) (kvs : Vals) (o : Option ℕ) → names k kvs ≡ false → last_of k kvs o ≡ o
unfolding last_of
last_of-unnamed k [] o h = refl
last_of-unnamed k ((j, v) ∷ kvs) o h =
    last_of-unnamed k kvs (if str_eq j k then some v else o) (ground arith) ∙ ground arith

get-overlay :
    (k : String) (used : Bool) (kvs m : Vals)
    → get k (if used then insert_all kvs m else m) ≡ overlaid k used kvs (get k m)
get-overlay k false kvs m = ground arith
get-overlay k true kvs m = ground (arith, get-insert_all k kvs m, last_of-unnamed k kvs (get k m))

-- What the features of a table make of a knob's value.
abbrev pub chosen : String → List String → List (String × Vals) → Option ℕ → Option ℕ
chosen k fs [] o = o
chosen k fs ((f, ov) ∷ table) o = chosen k fs table (overlaid k (contains f fs) ov o)

get-apply_features :
    (k : String) (fs : List String) (table : List (String × Vals)) (m : Vals)
    → get k (apply_features fs table m) ≡ chosen k fs table (get k m)
unfolding apply_features
get-apply_features k fs [] m = refl
get-apply_features k fs ((f, ov) ∷ table) m =
    get-apply_features k fs table (if contains f fs then insert_all ov m else m)
    ∙ ap (chosen k fs table) (get-overlay k (contains f fs) ov m)

-- The larger of a family's number and the value so far.
abbrev pub raised : Option ℕ → Option ℕ → Option ℕ
raised none o = o
raised (some max) o = some (larger max (unwrap_or_zero o))

get-raise :
    (k n : String) (max : Option ℕ) (m : Vals)
    → get k (raise n max m) ≡ (if str_eq n k then raised max (get k m) else get k m)
get-raise k n none m = ground arith
get-raise k n (some max) m =
    ground (arith, eq_iff n k, get-insert n k (larger max (unwrap_or_zero (get n m))) m)

-- What the numeric families make of a knob's value.
abbrev pub family_raised : String → List String → List (String × String) → Option ℕ → Option ℕ
family_raised k fs [] o = o
family_raised k fs ((p, n) ∷ table) o =
    family_raised k fs table (if str_eq n k then raised (max_value p fs) o else o)

get-apply_families :
    (k : String) (fs : List String) (table : List (String × String)) (m : Vals)
    → get k (apply_families fs table m) ≡ family_raised k fs table (get k m)
unfolding apply_families
get-apply_families k fs [] m = refl
get-apply_families k fs ((p, n) ∷ table) m =
    rw
      (get-apply_families k fs table (raise n (max_value p fs) m), get-raise k n (max_value p fs) m)

get-universe : (k : String) → get k (insert_all val_universe []) ≡ last_of k val_universe none
unfolding get
get-universe k = get-insert_all k val_universe []

-- A knob's value, step by step.
abbrev pub value_of : String → List String → Option ℕ
value_of k fs = family_raised k fs numeric_families (
    overlaid k (contains "UPSTREAM_TEST" fs) upstream_test_vals
      (chosen k fs feature_vals (last_of k val_universe none)))

pub get-val_settings_for :
    (k : String) (fs : List String) → get k (val_settings_for fs) ≡ value_of k fs
unfolding val_settings_for plain_settings
get-val_settings_for k fs =
    get-apply_families k fs numeric_families (plain_settings fs)
    ∙ ap (family_raised k fs numeric_families) (
        get-overlay k (contains "UPSTREAM_TEST" fs) upstream_test_vals
          (apply_features fs feature_vals (insert_all val_universe []))
        ∙ ap (overlaid k (contains "UPSTREAM_TEST" fs) upstream_test_vals) (
            get-apply_features k fs feature_vals (insert_all val_universe [])
            ∙ ap (chosen k fs feature_vals) (get-universe k)))

-- Whether a feature of a table, or a family, names a knob.
abbrev pub in_features : String → List (String × Vals) → Bool
in_features k [] = false
in_features k ((f, ov) ∷ table) = names k ov || in_features k table

abbrev pub in_families : String → List (String × String) → Bool
in_families k [] = false
in_families k ((p, n) ∷ table) = str_eq n k || in_families k table

chosen-unnamed :
    (k : String) (fs : List String) (table : List (String × Vals)) (o : Option ℕ)
    → in_features k table ≡ false
    → chosen k fs table o ≡ o
chosen-unnamed k fs [] o h = refl
chosen-unnamed k fs ((f, ov) ∷ table) o h =
    chosen-unnamed k fs table (overlaid k (contains f fs) ov o) (ground arith) ∙ ground arith

family_raised-unnamed :
    (k : String) (fs : List String) (table : List (String × String)) (o : Option ℕ)
    → in_families k table ≡ false
    → family_raised k fs table o ≡ o
family_raised-unnamed k fs [] o h = refl
family_raised-unnamed k fs ((p, n) ∷ table) o h =
    family_raised-unnamed k fs table (if str_eq n k then raised (max_value p fs) o else o)
      (ground arith)
    ∙ ground arith

-- A knob that no feature and no family names has its reset value, or that of the upstream tests.
pub val_settings_for-fixed :
    (k : String) (fs : List String)
    → in_features k feature_vals ≡ false
    → in_families k numeric_families ≡ false
    → get k (val_settings_for fs)
      ≡ overlaid k (contains "UPSTREAM_TEST" fs) upstream_test_vals (last_of k val_universe none)
val_settings_for-fixed k fs h l =
    get-val_settings_for k fs
    ∙ (family_raised-unnamed k fs numeric_families
          (overlaid k (contains "UPSTREAM_TEST" fs) upstream_test_vals
            (chosen k fs feature_vals (last_of k val_universe none)))
          l
        ∙ ap (overlaid k (contains "UPSTREAM_TEST" fs) upstream_test_vals)
            (chosen-unnamed k fs feature_vals (last_of k val_universe none) h))
