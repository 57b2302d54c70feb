-- ===== src/Features/Delta.antt =====
-- The delta of `prebuilt_validity`, nimble-rs-sys/gen/features.rs, names the knobs that differ.
use Prim.Native.String.{String}
use text.Mathlib.Text.{◌==◌ as str_eq}
use text.Mathlib.TextEquality.{eq_iff}
use text.Mathlib.TextPositions.{eq_refl}
use nimble_rs.Base.{
  ℕ, ◌≡◌, ◌↔◌, refl, sym, ◌∙◌, ap, Bool, true, false, not, ◌||◌, ◌&&◌, Option, none, some, List, [],
  ◌∷◌, ◌++◌, arith, ◌==◌, ==_iff, is_some, Option-cases, inl, inr,
}
use nimble_rs.Features.Tables.{Vals, prebuilt_features}
use nimble_rs.Features.Knobs.{get, insert, insert_all}
use nimble_rs.Features.Parse.{suffix_value, strip_prefix}
use nimble_rs.Features.Resolve.{
  val_settings_for, plain_settings, apply_features, apply_families, max_value, contains,
}
use nimble_rs.Features.Prebuilt.{
  active_val_settings, Delta, changed, missing, extra, valid, change, changes, addition, additions,
  deltas, verdict, prebuilt_validity,
}

abbrev pub knob : Delta → String
knob (changed name r v) = name
knob (missing name r) = name
knob (extra name v) = name

-- Whether the delta names a knob.
abbrev pub mentions : String → List Delta → Bool
mentions k [] = false
mentions k (d ∷ ds) = str_eq (knob d) k || mentions k ds

-- Whether two values differ, an absent one included.
abbrev pub differs : Option ℕ → Option ℕ → Bool
differs none none = false
differs none (some n) = true
differs (some m) none = true
differs (some m) (some n) = not (m == n)

abbrev pub IsDistinctKeys : Vals → Type 0
IsDistinctKeys [] = Unit
IsDistinctKeys ((k, v) ∷ m) = (get k m ≡ none) × IsDistinctKeys m

mentions-append :
    (k : String) (ds es : List Delta) → mentions k (ds ++ es) ≡ (mentions k ds || mentions k es)
mentions-append k [] es = refl
mentions-append k (d ∷ ds) es = ground (arith, mentions-append k ds es)

-- What the first loop says of a knob, where the reference gives it a value or none.
abbrev from_reference : Option ℕ → Option ℕ → Bool
from_reference none a = false
from_reference (some r) a = differs a (some r)

mentions-change :
    (k n : String) (r : ℕ) (a : Option ℕ)
    → mentions k (change n r a) ≡ (str_eq n k && differs a (some r))
mentions-change k n r none = ground arith
mentions-change k n r (some v) = ground arith

mentions-changes :
    (k : String) (active m : Vals)
    → IsDistinctKeys m
    → mentions k (changes active m) ≡ from_reference (get k m) (get k active)
unfolding changes get
mentions-changes k active [] h = refl
mentions-changes k active ((n, r) ∷ m) h = ground (
  arith,
  mentions-append k (change n r (get n active)) (changes active m),
  mentions-change k n r (get n active),
  mentions-changes k active m,
  eq_iff n k,
)

-- What the second loop says of a knob.
abbrev from_active : Option ℕ → Option ℕ → Bool
from_active none a = is_some a
from_active (some r) a = false

mentions-addition :
    (k n : String) (v : ℕ) (r : Option ℕ)
    → mentions k (addition n v r) ≡ (str_eq n k && not (is_some r))
mentions-addition k n v none = ground arith
mentions-addition k n v (some r) = ground arith

mentions-additions :
    (k : String) (reference m : Vals)
    → mentions k (additions reference m) ≡ from_active (get k reference) (get k m)
unfolding additions get
mentions-additions k reference [] = ground arith
mentions-additions k reference ((n, v) ∷ m) = ground (
  arith,
  mentions-append k (addition n v (get n reference)) (additions reference m),
  mentions-addition k n v (get n reference),
  mentions-additions k reference m,
  eq_iff n k,
)

-- The delta names just the knobs whose values differ.
pub mentions-deltas :
    (k : String) (active reference : Vals)
    → IsDistinctKeys reference
    → mentions k (deltas active reference) ≡ differs (get k active) (get k reference)
unfolding deltas
mentions-deltas k active reference h = ground (
  arith,
  mentions-append k (changes active reference) (additions reference active),
  mentions-changes k active reference h,
  mentions-additions k reference active,
)

abbrev are_distinct : Vals → Bool
are_distinct [] = true
are_distinct ((k, v) ∷ m) = not (is_some (get k m)) && are_distinct m

distinct_of_test : (m : Vals) → are_distinct m ≡ true → IsDistinctKeys m
distinct_of_test [] h = tt
distinct_of_test ((k, v) ∷ m) h =
    let ih = distinct_of_test m in
    elim (Option-cases (get k m)) [
      | inl e ↦ (e, ih (ground arith))
      | inr (x, e) ↦ absurd (ground arith)
    ]

reference_distinct_test : are_distinct (val_settings_for prebuilt_features) ≡ true
unfolding val_settings_for plain_settings apply_features apply_families max_value contains get
    insert insert_all suffix_value strip_prefix
reference_distinct_test = refl

reference_distinct : IsDistinctKeys (val_settings_for prebuilt_features)
reference_distinct = distinct_of_test (val_settings_for prebuilt_features) reference_distinct_test

not_mentioned : (ds : List Delta) → ((k : String) → mentions k ds ≡ false) → ds ≡ []
not_mentioned [] h = refl
not_mentioned (d ∷ ds) h = absurd ground (arith, h (knob d), eq_refl (knob d))

differs_iff : (a b : Option ℕ) → (differs a b ≡ false) ↔ (a ≡ b)
differs_iff none none = ground arith
differs_iff none (some n) = ground arith
differs_iff (some m) none = ground arith
differs_iff (some m) (some n) = ground (arith, ==_iff m n)

verdict_iff : (ds : List Delta) → (verdict ds ≡ valid) ↔ (ds ≡ [])
verdict_iff [] = ground arith
verdict_iff (d ∷ ds) = ground arith

-- The build's features are taken as valid just when they give every knob the value that it has in the
-- committed libraries, or leave it without a value as they do.
pub prebuilt_validity-equal :
    (vars : List String)
    → (prebuilt_validity vars ≡ valid) ↔ (
        (k : String)
        → get k (active_val_settings vars) ≡ get k (val_settings_for prebuilt_features))
unfolding prebuilt_validity
prebuilt_validity-equal vars =
    let active = active_val_settings vars in
    let reference = val_settings_for prebuilt_features in
    let named = λ (k : String). mentions-deltas k active reference reference_distinct in
    (
      λ h k.
          (differs_iff (get k active) (get k reference)).0
            (sym (named k) ∙ ap (mentions k) ((verdict_iff (deltas active reference)).0 h)),
      λ h. (verdict_iff (deltas active reference)).1 (
          not_mentioned (deltas active reference)
            λ k. named k ∙ (differs_iff (get k active) (get k reference)).1 (h k)),
    )
