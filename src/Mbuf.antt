-- ===== src/Mbuf.antt =====
-- `Mbuf` of nimble-rs/src/mbuf.rs: the operations on a chain of mbufs by its address, 0 being null.
-- The C host's functions are parameters.
pub mod Copies
use nimble_rs.Base.{
  ℕ, zero, suc, ◌%◌, true, false, List, [], ◌∷◌, ◌++◌, length, first_bytes, if◌then◌else◌, ◌==◌,
}
use nimble_rs.Error.{Result, ok, err, check}

-- The C host, over its state. `ble_hs_mbuf_to_flat` returns its code, the bytes that it writes to the
-- buffer's start, and what it stores in `copied`.
pub record MbufHost (H : Type 0) : Type 0 where
  pub ble_hs_mbuf_to_flat : (om max_len : ℕ) → H → ℕ × List ℕ × ℕ
  pub os_mbuf_append : ℕ → List ℕ → H → ℕ × H
  pub ble_hs_mbuf_from_flat : List ℕ → H → ℕ × H

-- `x as u16`
abbrev pub as_u16 : ℕ → ℕ
as_u16 n = n % 65536

-- What the C host is given of a slice whose length is passed as a `u16`.
abbrev pub passed : List ℕ → List ℕ
passed bytes = first_bytes (as_u16 (length bytes)) bytes

-- A buffer with bytes written over its start.
abbrev pub overwrite : List ℕ → List ℕ → List ℕ
overwrite [] buf = buf
overwrite (b ∷ bytes) [] = []
overwrite (b ∷ bytes) (c ∷ buf) = b ∷ overwrite bytes buf

-- `x?` on a result, then `Ok(y)`.
abbrev pub and_ok : Result {0} Unit → ℕ → Result ℕ
and_ok (ok u) n = ok n
and_ok (err e) n = err e

module _ {H : Type 0} (host : MbufHost H) (enomem : ℕ) where
  abbrev read_flat : ℕ × List ℕ × ℕ → List ℕ → Result ℕ × List ℕ
  read_flat (rc, bytes, copied) buf = (and_ok (check rc) copied, overwrite bytes buf)

  -- `Mbuf::read`, with what it leaves in the buffer.
  unfoldable pub read : ℕ → List ℕ → H → Result ℕ × List ℕ
  read om buf h =
      if om == 0
      then (ok 0, buf)
      else read_flat (host.ble_hs_mbuf_to_flat om (as_u16 (length buf)) h) buf

  -- `Mbuf::append`
  unfoldable pub append : ℕ → List ℕ → H → Result {0} Unit × H
  append om buf h = let (rc, h') = host.os_mbuf_append om (passed buf) h in (check rc, h')

  -- `mbuf_from_slice`
  unfoldable pub mbuf_from_slice : List ℕ → H → Result ℕ × H
  mbuf_from_slice buf h =
      let (om, h') = host.ble_hs_mbuf_from_flat (passed buf) h in
      if om == 0 then (err enomem, h') else (ok om, h')
