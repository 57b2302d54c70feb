-- ===== src/Features/Knobs.antt =====
-- The `BTreeMap` of settings in nimble-rs-sys/gen/features.rs: knobs in the order of their names, each
-- with its value, and what reading gives after writing.
use Prim.Native.String.{String, compare}
use text.Mathlib.Text.{is_lt, ◌==◌ as str_eq}
use text.Mathlib.TextEquality.{eq_iff}
use nimble_rs.Base.{ℕ, ◌≡◌, refl, Option, none, some, [], ◌∷◌, arith, if◌then◌else◌}
use nimble_rs.Features.Tables.{Vals}

-- `BTreeMap::get`
unfoldable pub get : String → Vals → Option ℕ
get k [] = none
get k ((j, v) ∷ m) = if str_eq j k then some v else get k m

-- `BTreeMap::insert`
unfoldable pub insert : String → ℕ → Vals → Vals
insert k v [] = (k, v) ∷ []
insert k v ((j, w) ∷ m) =
    let rest = insert k v m in
    if str_eq j k
    then (k, v) ∷ m
    else if is_lt (compare k j)
    then (k, v) ∷ (j, w) ∷ m
    else (j, w) ∷ rest

-- Insertion of each pair in turn.
unfoldable pub insert_all : Vals → Vals → Vals
insert_all [] m = m
insert_all ((k, v) ∷ kvs) m = insert_all kvs (insert k v m)

-- The last value that a list of pairs gives to a knob, or what it had.
unfoldable pub last_of : String → Vals → Option ℕ → Option ℕ
last_of k [] o = o
last_of k ((j, v) ∷ kvs) o = last_of k kvs (if str_eq j k then some v else o)

pub get-insert :
    (k j : String) (v : ℕ) (m : Vals)
    → get j (insert k v m) ≡ (if str_eq k j then some v else get j m)
unfolding get insert
get-insert k j v [] = refl
get-insert k j v ((i, w) ∷ m) =
    ground (arith, eq_iff k j, eq_iff i k, eq_iff i j, get-insert k j v m)

pub get-insert_all :
    (k : String) (kvs m : Vals) → get k (insert_all kvs m) ≡ last_of k kvs (get k m)
unfolding insert_all last_of
get-insert_all k [] m = refl
get-insert_all k ((j, v) ∷ kvs) m = rw (get-insert_all k kvs (insert j v m), get-insert j k v m)
