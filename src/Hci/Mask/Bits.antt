-- ===== src/Hci/Mask/Bits.antt =====
-- Single bits of a list of octets, and how `mask[octet] |= 1 << bit` changes them.
use nimble_rs.Base.{
  ℕ, zero, suc, ◌*◌, ◌/◌, ◌%◌, ◌^◌, ◌<◌, ◌≡◌, refl, ap, ◌∙◌, ◌||◌, ◌&&◌, not, ◌-◌, Bool, true,
  false, List, [], ◌∷◌, arith, ◌==◌, length, ltb,
}
use Prim.Native.Nat.{bit_or}
use nimble_rs.Hci.Mask.{Position, set_bit, set_all, zeros}

abbrev pub bit_at : ℕ → ℕ → Bool
bit_at m b = m / 2 ^ b % 2 == 1

-- Bit `b` of octet `o`; a position outside the octets has no bit.
pub bit : ℕ → ℕ → List ℕ → Bool
bit o b [] = false
bit zero b (m ∷ mask) = bit_at m b
bit (suc o) b (m ∷ mask) = bit o b mask

abbrev pub has_position : ℕ → ℕ → List Position → Bool
has_position o b [] = false
has_position o b ((o', b') ∷ ps) = (o == o' && b == b') || has_position o b ps

abbrev pub in_range : List Position → Bool
in_range [] = true
in_range ((o, b) ∷ ps) = (ltb o 64 && ltb b 8) && in_range ps

abbrev IsBytes : List ℕ → Type 0
IsBytes [] = Unit
IsBytes (m ∷ mask) = (m < 256) × IsBytes mask

-- A test of every number under a bound.
holds_under : (ℕ → Bool) → ℕ → Bool
holds_under test zero = true
holds_under test (suc bound) = holds_under test bound && test bound

holds_at :
    (test : ℕ → Bool) (bound k : ℕ) → k < bound → holds_under test bound ≡ true → test k ≡ true
unfolding holds_under
holds_at test zero k lt all = absurd (omega arith)
holds_at test (suc bound) k lt all = ground (arith, holds_at test bound k)

abbrev eqb : Bool → Bool → Bool
eqb true b = b
eqb false true = false
eqb false false = true

abbrev or_test : ℕ → ℕ → ℕ → Bool
or_test m i j =
    eqb (bit_at (bit_or m (2 ^ i)) j) (bit_at m j || j == i) && ltb (bit_or m (2 ^ i)) 256

or_table : holds_under (λ m. holds_under (λ i. holds_under (λ j. or_test m i j) 8) 8) 256 ≡ true
unfolding holds_under
or_table = refl

or_test-true : (m i j : ℕ) → m < 256 → i < 8 → j < 8 → or_test m i j ≡ true
or_test-true m i j hm hi hj = holds_at _ 8 j hj (holds_at _ 8 i hi (holds_at _ 256 m hm or_table))

eqb_sound : (a b : Bool) → eqb a b ≡ true → a ≡ b
eqb_sound true true h = refl
eqb_sound true false h = cc
eqb_sound false true h = cc
eqb_sound false false h = refl

and_true : (a b : Bool) → (a && b) ≡ true → (a ≡ true) × (b ≡ true)
and_true true b h = (refl, h)
and_true false b h = cc

ltb-true : (m n : ℕ) → ltb m n ≡ true → m < n
ltb-true m n h = ground arith

swap_or : (a b c : Bool) → (a || (b || c)) ≡ ((b || a) || c)
swap_or true true c = refl
swap_or true false c = refl
swap_or false true c = refl
swap_or false false c = refl

bit_at-or :
    (m i j : ℕ)
    → m < 256
    → i < 8
    → j < 8
    → (bit_at (bit_or m (2 ^ i)) j ≡ (bit_at m j || j == i)) × (bit_or m (2 ^ i) < 256)
bit_at-or m i j hm hi hj =
    let (same, small) = and_true _ _ (or_test-true m i j hm hi hj) in
    (eqb_sound _ _ same, ltb-true _ _ small)

abbrev clear_test : ℕ → ℕ → Bool
clear_test m j = eqb (bit_at (m - 32 * (m / 32 % 2)) j) (bit_at m j && not (j == 5))

clear_table : holds_under (λ m. holds_under (λ j. clear_test m j) 8) 256 ≡ true
unfolding holds_under
clear_table = refl

-- A byte without its bit 5 has every other bit as it was.
pub bit_at-clear :
    (m j : ℕ) → m < 256 → j < 8 → bit_at (m - 32 * (m / 32 % 2)) j ≡ (bit_at m j && not (j == 5))
bit_at-clear m j hm hj = eqb_sound _ _ (holds_at _ 8 j hj (holds_at _ 256 m hm clear_table))

bit-set_bit :
    (o b o' b' : ℕ) (mask : List ℕ)
    → IsBytes mask
    → o' < length mask
    → b < 8
    → b' < 8
    → bit o b (set_bit o' b' mask) ≡ ((o == o' && b == b') || bit o b mask)
unfolding bit set_bit
bit-set_bit o b o' b' [] m h hb hb' = elim h [ ]
bit-set_bit zero b zero b' (x ∷ mask) m h hb hb' = ground (arith, bit_at-or x b' b m.0 hb' hb)
bit-set_bit zero b (suc o') b' (x ∷ mask) m h hb hb' = ground arith
bit-set_bit (suc o) b zero b' (x ∷ mask) m h hb hb' = ground arith
bit-set_bit (suc o) b (suc o') b' (x ∷ mask) m h hb hb' =
    ground (arith, bit-set_bit o b o' b' mask m.1)

set_bit_shape :
    (o b : ℕ) (mask : List ℕ)
    → IsBytes mask
    → b < 8
    → IsBytes (set_bit o b mask) × (length (set_bit o b mask) ≡ length mask)
unfolding set_bit
set_bit_shape o b [] m hb = (tt, refl)
set_bit_shape zero b (x ∷ mask) m hb = (((bit_at-or x b 0 m.0 hb (omega arith)).1, m.1), refl)
set_bit_shape (suc o) b (x ∷ mask) m hb =
    let (bs, l) = set_bit_shape o b mask m.1 hb in ((m.0, bs), omega arith)

bit-set_all :
    (o b : ℕ) (ps : List Position) (mask : List ℕ)
    → IsBytes mask
    → length mask ≡ 64
    → in_range ps ≡ true
    → b < 8
    → bit o b (set_all ps mask) ≡ (has_position o b ps || bit o b mask)
unfolding set_all
bit-set_all o b [] mask m l r hb = refl
bit-set_all o b ((o', b') ∷ ps) mask m l r hb =
    let bits : b' < 8 = ground arith in
    let octets : o' < 64 = ground arith in
    let (bs, same) = set_bit_shape o' b' mask m bits in
    let rest = bit-set_all o b ps (set_bit o' b' mask) bs (omega arith) (ground arith) hb in
    let here = bit-set_bit o b o' b' mask m (omega arith) hb bits in
    rest
    ∙ ap (λ x. has_position o b ps || x) here
    ∙ swap_or (has_position o b ps) (o == o' && b == b') (bit o b mask)

zeros_shape : (n : ℕ) → IsBytes (zeros n) × (length (zeros n) ≡ n)
unfolding zeros
zeros_shape zero = (tt, refl)
zeros_shape (suc n) = let (bs, l) = zeros_shape n in ((omega arith, bs), omega arith)

zero_bit : (b : ℕ) → b < 8 → bit_at 0 b ≡ false
zero_bit b h = ground arith

bit-zeros : (o b n : ℕ) → b < 8 → bit o b (zeros n) ≡ false
unfolding bit zeros
bit-zeros o b zero h = refl
bit-zeros zero b (suc n) h = zero_bit b h
bit-zeros (suc o) b (suc n) h = bit-zeros o b n h

-- From 64 octets of zeros, exactly the bits of the list are set.
pub bit-set_all-zeros :
    (o b : ℕ) (ps : List Position)
    → in_range ps ≡ true
    → b < 8
    → bit o b (set_all ps (zeros 64)) ≡ has_position o b ps
bit-set_all-zeros o b ps r hb =
    let (bs, l) = zeros_shape 64 in
    ground (arith, bit-set_all o b ps (zeros 64) bs l r hb, bit-zeros o b 64 hb)

length-set_all :
    (ps : List Position) (mask : List ℕ)
    → IsBytes mask
    → in_range ps ≡ true
    → length (set_all ps mask) ≡ length mask
unfolding set_all
length-set_all [] mask m r = refl
length-set_all ((o, b) ∷ ps) mask m r =
    let bits : b < 8 = ground arith in
    let (bs, same) = set_bit_shape o b mask m bits in
    length-set_all ps (set_bit o b mask) bs (ground arith) ∙ same

pub set_all-zeros-length :
    (n : ℕ) (ps : List Position) → in_range ps ≡ true → length (set_all ps (zeros n)) ≡ n
set_all-zeros-length n ps r = let (bs, l) = zeros_shape n in length-set_all ps (zeros n) bs r ∙ l
