-- ===== src/Gap/Name.antt =====
-- What the C host reads of a device name.
use nimble_rs.Base.{
  ℕ, zero, suc, ◌-◌, ◌≤◌, ◌<◌, ◌≡◌, ◌⊎◌, refl, true, false, Option, none, some, List, [], ◌∷◌, ◌++◌,
  arith, length, length-append, if◌then◌else◌, leb, ◌==◌, has, Bool-cases, inl, inr,
}
use nimble_rs.Error.{err, check}
use nimble_rs.Hci.Packet.{◌>>=◌}
use nimble_rs.Gap.{name_buf, zeros, set_device_name}

-- The C string at the start of a buffer: the bytes up to the first 0, none if there is no 0.
pub c_string : List ℕ → Option (List ℕ)
c_string [] = none
c_string (b ∷ bytes) = if b == 0 then some [] else c_string bytes >>= (λ rest. some (b ∷ rest))

c_string-zeros :
    (name : List ℕ) (n : ℕ) → has 0 name ≡ false → c_string (name ++ zeros (suc n)) ≡ some name
unfolding c_string
c_string-zeros [] n h = refl
c_string-zeros (b ∷ name) n h =
    let b_on : (b == 0) ≡ false = ground arith in
    rw (b_on, c_string-zeros name n (ground arith)) refl

length-zeros : (n : ℕ) → length (zeros n) ≡ n
length-zeros zero = refl
length-zeros (suc n) = omega (arith, length-zeros n)

room : (n : ℕ) → n < 64 → (m : ℕ) × (64 - n ≡ suc m)
room n h = (63 - n, omega arith)

module _ {H : Type 0} (ble_svc_gap_device_name_set : List ℕ → H → ℕ × H) (einval : ℕ) where
  -- A name of 64 bytes or more, or with a 0 in it, is refused and does not reach the C host. Of any
  -- other name the C host gets a buffer of 64 bytes whose C string is the whole name, and its code
  -- is the result.
  pub set_device_name-c_string :
      (name : List ℕ) (host : H)
      → ((set_device_name ble_svc_gap_device_name_set einval name host ≡ (err einval, host))
          × ((64 ≤ length name) ⊎ (has 0 name ≡ true)))
        ⊎ ((buf : List ℕ) × (length buf ≡ 64)
            × (c_string buf ≡ some name)
            × (set_device_name ble_svc_gap_device_name_set einval name host ≡ (
              check (ble_svc_gap_device_name_set buf host).0,
              (ble_svc_gap_device_name_set buf host).1,
            )))
  unfolding set_device_name
  set_device_name-c_string name host = elim (Bool-cases (leb name_buf (length name))) [
    | inl e ↦ inl (rw e refl, inl (ground arith))
    | inr e ↦ elim (Bool-cases (has 0 name)) [
      | inl z ↦ inl (rw (e, z) refl, inr z)
      | inr z ↦
          let (m, left) = room (length name) (ground arith) in
          inr (
            name ++ zeros (64 - length name),
            omega (
              arith,
              length-append name (zeros (64 - length name)),
              length-zeros (64 - length name),
              left,
            ),
            rw left (c_string-zeros name m z),
            rw (e, z) refl,
          )
    ]
  ]
