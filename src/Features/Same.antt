-- ===== src/Features/Same.antt =====
-- `val_settings_for` of nimble-rs-sys/gen/features.rs reads its list of features as a set.
use Prim.Native.String.{String}
use text.Mathlib.TextEquality.{eq_iff}
use text.Mathlib.TextPositions.{eq_refl}
use nimble_rs.Base.{
  ℕ, ◌+◌, ◌≤◌, ◌≡◌, refl, sym, ◌∙◌, ap, true, Option, none, some, List, [], ◌∷◌, arith,
  if◌then◌else◌,
}
use nimble_rs.Features.Tables.{Vals, val_universe, feature_vals, numeric_families}
use nimble_rs.Features.Knobs.{insert_all}
use nimble_rs.Features.Parse.{suffix_value}
use nimble_rs.Features.Resolve.{
  contains, max_option, max_value, apply_features, raise, apply_families, plain_settings,
  val_settings_for,
}

-- Two lists of features have the same members.
abbrev pub SameFeatures : List String → List String → Type 0
SameFeatures fs gs = (f : String) → contains f fs ≡ contains f gs

-- No number is below every number.
abbrev pub rank : Option ℕ → ℕ
rank none = 0
rank (some n) = n + 1

rank-injective : (a b : Option ℕ) → rank a ≡ rank b → a ≡ b
rank-injective none none h = refl
rank-injective none (some n) h = absurd (omega arith)
rank-injective (some m) none h = absurd (omega arith)
rank-injective (some m) (some n) h = ap some (omega arith)

max_option_left : (a b : Option ℕ) → rank a ≤ rank (max_option a b)
max_option_left none b = omega arith
max_option_left (some m) none = omega arith
max_option_left (some m) (some n) = ground arith

max_option_right : (a b : Option ℕ) → rank b ≤ rank (max_option a b)
max_option_right none b = omega arith
max_option_right (some m) none = omega arith
max_option_right (some m) (some n) = ground arith

max_option_least : (a b : Option ℕ) (k : ℕ) → rank a ≤ k → rank b ≤ k → rank (max_option a b) ≤ k
max_option_least none b k h l = l
max_option_least (some m) none k h l = h
max_option_least (some m) (some n) k h l = ground arith

max_value_above :
    (p f : String) (fs : List String)
    → contains f fs ≡ true
    → rank (suffix_value p f) ≤ rank (max_value p fs)
unfolding contains max_value
max_value_above p f [] h = absurd (cc)
max_value_above p f (g ∷ fs) h = ground (
  arith,
  eq_iff g f,
  max_option_left (suffix_value p g) (max_value p fs),
  max_option_right (suffix_value p g) (max_value p fs),
  max_value_above p f fs,
)

max_value_least :
    (p : String) (fs : List String) (k : ℕ)
    → ((f : String) → contains f fs ≡ true → rank (suffix_value p f) ≤ k)
    → rank (max_value p fs) ≤ k
unfolding contains max_value
max_value_least p [] k h = omega arith
max_value_least p (f ∷ fs) k h =
    max_option_least (suffix_value p f) (max_value p fs) k (h f (ground (arith, eq_refl f)))
      (max_value_least p fs k λ g e. h g (ground arith))

-- More features never lower the number of a family.
pub max_value_mono :
    (p : String) (fs gs : List String)
    → ((f : String) → contains f fs ≡ true → contains f gs ≡ true)
    → rank (max_value p fs) ≤ rank (max_value p gs)
max_value_mono p fs gs h =
    max_value_least p fs (rank (max_value p gs)) λ f e. max_value_above p f gs (h f e)

max_value-same :
    (p : String) (fs gs : List String) → SameFeatures fs gs → max_value p fs ≡ max_value p gs
max_value-same p fs gs h = rank-injective (max_value p fs) (max_value p gs) (
    omega
      (arith, max_value_mono p fs gs λ f e. sym (h f) ∙ e, max_value_mono p gs fs λ f e. h f ∙ e))

apply_features-same :
    (fs gs : List String) (table : List (String × Vals)) (m : Vals)
    → SameFeatures fs gs
    → apply_features fs table m ≡ apply_features gs table m
unfolding apply_features
apply_features-same fs gs [] m h = refl
apply_features-same fs gs ((f, ov) ∷ table) m h =
    rw (h f) (apply_features-same fs gs table (if contains f gs then insert_all ov m else m) h)

apply_families-same :
    (fs gs : List String) (table : List (String × String)) (m : Vals)
    → SameFeatures fs gs
    → apply_families fs table m ≡ apply_families gs table m
unfolding apply_families
apply_families-same fs gs [] m h = refl
apply_families-same fs gs ((p, k) ∷ table) m h =
    rw (max_value-same p fs gs h) (apply_families-same fs gs table (raise k (max_value p gs) m) h)

-- The settings are the same for any two lists with the same features, whatever the order and however
-- often each stands there.
pub val_settings_for-same :
    (fs gs : List String) → SameFeatures fs gs → val_settings_for fs ≡ val_settings_for gs
unfolding val_settings_for plain_settings
val_settings_for-same fs gs h =
    rw (apply_features-same fs gs feature_vals (insert_all val_universe []) h, h "UPSTREAM_TEST")
      (apply_families-same fs gs numeric_families (plain_settings gs) h)
