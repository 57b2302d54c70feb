-- ===== src/Mbuf/Copies.antt =====
-- Which bytes go through an mbuf.
use nimble_rs.Base.{
  ℕ, zero, suc, ◌%◌, ◌≤◌, ◌<◌, ◌≡◌, ◌≢◌, refl, ◌∙◌, ap, List, [], ◌∷◌, length, first_bytes,
  if◌then◌else◌, ◌==◌, leb, arith,
}
use nimble_rs.Error.{Result, ok, err}
use nimble_rs.Mbuf.{MbufHost, passed, overwrite, read, mbuf_from_slice}

pub first_bytes_all : (bytes : List ℕ) → first_bytes (length bytes) bytes ≡ bytes
first_bytes_all [] = refl
first_bytes_all (b ∷ bytes) = ap (λ bs. b ∷ bs) (first_bytes_all bytes)

pub length-first_bytes :
    (n : ℕ) (bytes : List ℕ) → n ≤ length bytes → length (first_bytes n bytes) ≡ n
length-first_bytes zero bytes h = refl
length-first_bytes (suc n) [] h = absurd (omega arith)
length-first_bytes (suc n) (b ∷ bytes) h = ap suc (length-first_bytes n bytes (omega arith))

-- A slice below 64 KiB is passed whole.
pub passed_whole : (bytes : List ℕ) → length bytes < 65536 → passed bytes ≡ bytes
passed_whole bytes h =
    let e : length bytes % 65536 ≡ length bytes = omega arith in rw e (first_bytes_all bytes)

length-passed : (bytes : List ℕ) → length (passed bytes) ≡ length bytes % 65536
length-passed bytes = length-first_bytes (length bytes % 65536) bytes (omega arith)

module _ {H : Type 0} (host : MbufHost H) (chain : H → ℕ → List ℕ) (enomem emsgsize : ℕ) where
  -- What the C host documents of its calls, where `chain` gives the bytes of an mbuf: a new mbuf has the
  -- bytes that it is made of, and a copy stops at the buffer's end, with an error if bytes are left.
  pub record Contract : Type 0 where
    pub from_flat :
        (bytes : List ℕ) (h : H)
        → (host.ble_hs_mbuf_from_flat bytes h).0 ≢ 0
        → chain (host.ble_hs_mbuf_from_flat bytes h).1 (host.ble_hs_mbuf_from_flat bytes h).0
          ≡ bytes
    pub to_flat :
        (om max_len : ℕ) (h : H)
        → length (chain h om) ≤ max_len
        → host.ble_hs_mbuf_to_flat om max_len h ≡ (0, chain h om, length (chain h om))
    pub to_flat_small :
        (om max_len : ℕ) (h : H)
        → max_len < length (chain h om)
        → host.ble_hs_mbuf_to_flat om max_len h
          ≡ (emsgsize, first_bytes max_len (chain h om), max_len)

  made :
      (r : ℕ × H) (om : ℕ) (h' : H)
      → ◌≡◌ {A = Result ℕ × H} (if r.0 == 0 then (err enomem, r.1) else (ok r.0, r.1)) (ok om, h')
      → (r.0 ≢ 0) × (r.0 ≡ om) × (r.1 ≡ h')
  made r om h' e = ground arith

  read_chain :
      (om n : ℕ) (buf bs : List ℕ) (h : H)
      → Contract
      → emsgsize ≢ 0
      → om ≢ 0
      → chain h om ≡ bs
      → length bs ≡ n
      → read host enomem om buf h ≡ (
          if leb n (length buf % 65536)
          then (ok n, overwrite bs buf)
          else (err emsgsize, overwrite (first_bytes (length buf % 65536) bs) buf))
  unfolding read
  read_chain om n buf bs h c e live same len =
      ground (arith, c.to_flat om (length buf % 65536) h, c.to_flat_small om (length buf % 65536) h)

  -- Reading an mbuf that was made of a slice gives the slice's bytes back, and their number, where the
  -- buffer has room for them, and otherwise fails with what fits in the buffer. Both lengths count
  -- modulo 65536, since the code passes them as a `u16`.
  pub read-mbuf_from_slice :
      (bytes buf : List ℕ) (h h' : H) (om : ℕ)
      → Contract
      → emsgsize ≢ 0
      → mbuf_from_slice host enomem bytes h ≡ (ok om, h')
      → read host enomem om buf h' ≡ (
          if leb (length bytes % 65536) (length buf % 65536)
          then (ok (length bytes % 65536), overwrite (passed bytes) buf)
          else (err emsgsize, overwrite (first_bytes (length buf % 65536) (passed bytes)) buf))
  unfolding mbuf_from_slice
  read-mbuf_from_slice bytes buf h h' om c e m =
      let r = host.ble_hs_mbuf_from_flat (passed bytes) h in
      let (live, same_om, same_h) = made r om h' m in
      let stored : chain h' om ≡ passed bytes = cc (c.from_flat (passed bytes) h live) in
      read_chain om (length bytes % 65536) buf (passed bytes) h' c e (λ z. live (same_om ∙ z))
        stored (length-passed bytes)
