-- ===== src/Features/Parse.antt =====
-- How nimble-rs-sys/gen/features.rs reads the number of a feature such as `MAX_CONNECTIONS_4`:
-- `str::strip_prefix` and `str::parse::<u32>`.
use Prim.Native.String.{String, len, slice}
use Prim.Native.Char.{code}
use text.Mathlib.Text.{starts_with}
use nimble_rs.Base.{
  ℕ, ◌+◌, ◌-◌, ◌*◌, ◌&&◌, Option, none, some, List, [], ◌∷◌, ltb, leb, ◌==◌, if◌then◌else◌,
}

unfoldable pub codes : String → List ℕ
codes String.[] = []
codes (String.◌∷◌ c s) = code c ∷ codes s

-- `str::strip_prefix`: what follows the prefix.
unfoldable pub strip_prefix : String → String → Option String
strip_prefix s prefix = if starts_with s prefix then some (slice s (len prefix) (len s)) else none

-- One more digit, in a `u32`.
abbrev pub push_digit : ℕ → ℕ → Option ℕ
push_digit acc c =
    if leb b'0' c && leb c b'9' && ltb (acc * 10 + (c - b'0')) 4294967296
    then some (acc * 10 + (c - b'0'))
    else none

unfoldable pub digits : List ℕ → ℕ → Option ℕ
digits [] acc = some acc
digits (c ∷ cs) acc = elim (push_digit acc c) [ none ↦ none | some n ↦ digits cs n ]

-- A sign needs digits behind it, and so does no sign.
abbrev pub some_digits : List ℕ → Option ℕ
some_digits [] = none
some_digits (c ∷ cs) = digits (c ∷ cs) 0

-- `str::parse::<u32>`
unfoldable pub parse_u32 : List ℕ → Option ℕ
parse_u32 [] = none
parse_u32 (c ∷ cs) = if c == b'+' then some_digits cs else digits (c ∷ cs) 0

abbrev pub then_parse : Option String → Option ℕ
then_parse none = none
then_parse (some s) = parse_u32 (codes s)

-- The number of a feature of the family with a prefix.
unfoldable pub suffix_value : String → String → Option ℕ
suffix_value prefix feature = then_parse (strip_prefix feature prefix)
