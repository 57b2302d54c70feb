-- ===== src/Gatt/Chrs.antt =====
-- The characteristics of one service in the table.
use nimble_rs.Base.{
  ℕ, ◌+◌, ◌≤◌, ◌<◌, ◌≡◌, ◌≢◌, refl, ap, ◌∙◌, true, false, some, List, [], ◌∷◌, arith, length, ltb,
  ◌==◌, update,
}
use nimble_rs.Hci.Packet.{◌>>=◌}
use nimble_rs.Gatt.{
  BleGattCharacteristic, zero_chr, BleGattServices, chr_def, Building, add_chr, add_chrs,
}

-- From `def_at` on stand the definitions of the characteristics, each with its UUID in the copy
-- from `char_at` on, and then a terminator.
abbrev pub HasChrs : BleGattServices → ℕ → ℕ → List BleGattCharacteristic → Type 0
HasChrs t char_at def_at [] = t.chr_defs.item def_at ≡ zero_chr
HasChrs t char_at def_at (c ∷ cs) =
    (t.chr_defs.item def_at ≡ chr_def char_at c)
    × (t.chars.item char_at ≡ c)
    × HasChrs t (char_at + 1) (def_at + 1) cs

pub update_at : {A : Type 0} (f : ℕ → A) (p : ℕ) (x : A) → update f p x p ≡ x
update_at f p x = let e : (p == p) ≡ true = ground arith in rw e refl

pub update_off : {A : Type 0} (f : ℕ → A) (p : ℕ) (x : A) (q : ℕ) → q ≢ p → update f p x q ≡ f q
update_off f p x q ne = let e : (q == p) ≡ false = ground arith in rw e refl

-- Two tables have the same characteristics below an index, and definitions below another.
abbrev pub Agree : BleGattServices → BleGattServices → ℕ → ℕ → Type 0
Agree t u c d =
    ((i : ℕ) → i < c → u.chars.item i ≡ t.chars.item i)
    × ((i : ℕ) → i < d → u.chr_defs.item i ≡ t.chr_defs.item i)

pub HasChrs-frame :
    (t u : BleGattServices) (c d : ℕ) (cs : List BleGattCharacteristic)
    → Agree t u (c + length cs) (d + length cs + 1)
    → HasChrs t c d cs
    → HasChrs u c d cs
HasChrs-frame t u c d [] (a, b) h = b d (omega arith) ∙ h
HasChrs-frame t u c d (x ∷ cs) (a, b) (h, k, rest) = (
  b d (omega arith) ∙ h,
  a c (omega arith) ∙ k,
  HasChrs-frame t u (c + 1) (d + 1) cs (λ i lt. a i (omega arith), λ i lt. b i (omega arith)) rest,
)

-- What the inner loop does to the table: it goes on by the number of characteristics, leaves all
-- below and above, and the services.
pub record Added (b r : Building) (cs : List BleGattCharacteristic) : Type 0 where
  pub char_at : r.1 ≡ b.1 + length cs
  pub def_at : r.2 ≡ b.2 + length cs
  pub lens : (r.0.chars.len ≡ b.0.chars.len) × (r.0.chr_defs.len ≡ b.0.chr_defs.len)
  pub below : Agree b.0 r.0 b.1 b.2
  pub above : (i : ℕ) → b.2 + length cs ≤ i → r.0.chr_defs.item i ≡ b.0.chr_defs.item i
  pub services : (r.0.svc_uuids ≡ b.0.svc_uuids) × (r.0.svc_defs ≡ b.0.svc_defs)
  pub has : b.0.chr_defs.item (b.2 + length cs) ≡ zero_chr → HasChrs r.0 b.1 b.2 cs

-- The table after one characteristic.
abbrev one_more : BleGattCharacteristic → Building → Building
one_more x (t, c, d) = (
  record {
    chars = record { len = t.chars.len; item = update t.chars.item c x };
    svc_uuids = t.svc_uuids;
    chr_defs = record { len = t.chr_defs.len; item = update t.chr_defs.item d (chr_def c x) };
    svc_defs = t.svc_defs;
  },
  c + 1,
  d + 1,
)

add_chr_lem :
    (x : BleGattCharacteristic) (b : Building)
    → b.1 < b.0.chars.len
    → b.2 < b.0.chr_defs.len
    → add_chr x b ≡ some (one_more x b)
unfolding add_chr
add_chr_lem x b hc hd =
    let c : ltb b.1 b.0.chars.len ≡ true = ground arith in
    let d : ltb b.2 b.0.chr_defs.len ≡ true = ground arith in rw (c, d) refl

pub add_chrs-Added :
    (cs : List BleGattCharacteristic) (b : Building)
    → b.1 + length cs ≤ b.0.chars.len
    → b.2 + length cs < b.0.chr_defs.len
    → (r : Building) × (add_chrs cs b ≡ some r) × Added b r cs
unfolding add_chrs
add_chrs-Added [] b hc hd = (
  b,
  refl,
  record {
    char_at = omega arith;
    def_at = omega arith;
    lens = (refl, refl);
    below = (λ i lt. refl, λ i lt. refl);
    above = λ i le. refl;
    services = (refl, refl);
    has = λ z. ap b.0.chr_defs.item (omega arith) ∙ z;
  },
)
add_chrs-Added (x ∷ cs) b hc hd =
    let (r, e, a) = add_chrs-Added cs (one_more x b) (omega arith) (omega arith) in
    (
      r,
      ap (λ o. o >>= add_chrs cs) (add_chr_lem x b (omega arith) (omega arith)) ∙ e,
      record {
        char_at = omega (arith, a.char_at);
        def_at = omega (arith, a.def_at);
        lens = a.lens;
        below = (
          λ i lt. a.below.0 i (omega arith) ∙ update_off b.0.chars.item b.1 x i (omega arith),
          λ i lt.
              a.below.1 i (omega arith)
              ∙ update_off b.0.chr_defs.item b.2 (chr_def b.1 x) i (omega arith),
        );
        above = λ i le.
            a.above i (omega arith)
            ∙ update_off b.0.chr_defs.item b.2 (chr_def b.1 x) i (omega arith);
        services = a.services;
        has = λ z. (
          a.below.1 b.2 (omega arith) ∙ update_at b.0.chr_defs.item b.2 (chr_def b.1 x),
          a.below.0 b.1 (omega arith) ∙ update_at b.0.chars.item b.1 x,
          a.has (
              update_off b.0.chr_defs.item b.2 (chr_def b.1 x) (b.2 + 1 + length cs) (omega arith)
              ∙ ap b.0.chr_defs.item (omega arith)
              ∙ z),
        );
      },
    )
