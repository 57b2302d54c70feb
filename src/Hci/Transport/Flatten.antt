-- ===== src/Hci/Transport/Flatten.antt =====
-- What `ble_transport_to_ll_acl_impl` queues of a chain of mbufs.
use nimble_rs.Base.{
  ℕ, zero, suc, ◌+◌, ◌≤◌, ◌<◌, ◌≡◌, ◌≢◌, refl, ap, ◌∙◌, true, false, Option, none, some, List, [],
  ◌∷◌, ◌++◌, arith, length, length-append, ◌&&◌, if◌then◌else◌, leb, ltb, ◌==◌, Bool-cases, inl,
  inr,
}
use nimble_rs.Npl.Chain.{Chain}
use nimble_rs.Hci.Packet.{Packet}
use nimble_rs.Hci.Transport.{
  OsMbuf, CMemory, Queues, flatten, try_send, give_back, ble_transport_to_ll_acl_impl,
}

-- The bytes of the mbufs, in order.
abbrev pub bytes_of : (ℕ → OsMbuf) → List ℕ → Packet
bytes_of mbufs [] = []
bytes_of mbufs (x ∷ xs) = (mbufs x).om_data ++ bytes_of mbufs xs

append_assoc : (xs ys zs : Packet) → (xs ++ ys) ++ zs ≡ xs ++ (ys ++ zs)
append_assoc [] ys zs = refl
append_assoc (x ∷ xs) ys zs = ap (λ r. x ∷ r) (append_assoc xs ys zs)

append_nil : (xs : Packet) → xs ++ [] ≡ xs
append_nil [] = refl
append_nil (x ∷ xs) = ap (λ r. x ∷ r) (append_nil xs)

-- All the bytes, if they fit behind those that were there.
abbrev fitted : ℕ → Packet → Option Packet
fitted most p = if leb (length p) most then some p else none

stop :
    (fuel cur : ℕ) (acl_packet_max : ℕ) (mbufs : ℕ → OsMbuf) (p : Packet)
    → cur ≡ 0
    → flatten acl_packet_max (suc fuel) cur mbufs p ≡ some (some p)
unfolding flatten
stop fuel cur most mbufs p e = rw e refl

go_on :
    (fuel cur : ℕ) (most : ℕ) (mbufs : ℕ → OsMbuf) (p : Packet)
    → cur ≢ 0
    → leb (length p + length (mbufs cur).om_data) most ≡ true
    → flatten most (suc fuel) cur mbufs p
      ≡ flatten most fuel (mbufs cur).om_next mbufs (p ++ (mbufs cur).om_data)
unfolding flatten
go_on fuel cur most mbufs p live e =
    let on : (cur == 0) ≡ false = ground arith in rw (on, e, flatten) refl

overflow :
    (fuel cur : ℕ) (most : ℕ) (mbufs : ℕ → OsMbuf) (p : Packet)
    → cur ≢ 0
    → leb (length p + length (mbufs cur).om_data) most ≡ false
    → flatten most (suc fuel) cur mbufs p ≡ some none
unfolding flatten
overflow fuel cur most mbufs p live e =
    let on : (cur == 0) ≡ false = ground arith in rw (on, e, flatten) refl

flatten-bytes :
    (fuel cur most : ℕ) (mbufs : ℕ → OsMbuf) (xs : List ℕ) (p : Packet)
    → Chain (λ m. (mbufs m).om_next) cur xs
    → length xs < fuel
    → length p ≤ most
    → flatten most fuel cur mbufs p ≡ some (fitted most (p ++ bytes_of mbufs xs))
flatten-bytes zero cur most mbufs xs p c h small = absurd (omega arith)
flatten-bytes (suc fuel) cur most mbufs [] p c h small =
    let fits : leb (length p) most ≡ true = ground arith in
    stop fuel cur most mbufs p c ∙ rw (append_nil p, fits) refl
flatten-bytes (suc fuel) cur most mbufs (x ∷ xs) p (at, live, c) h small =
    elim (Bool-cases (leb (length p + length (mbufs x).om_data) most)) [
      | inl e ↦
          let grown : length (p ++ (mbufs x).om_data) ≤ most =
            ground (arith, length-append p (mbufs x).om_data) in
          rw at (
            go_on fuel x most mbufs p live e
            ∙ flatten-bytes fuel _ most mbufs xs (p ++ (mbufs x).om_data) c (omega arith) grown
            ∙ ap (λ q. some (fitted most q)) (append_assoc p _ _))
      | inr e ↦
          let total : length (p ++ ((mbufs x).om_data ++ bytes_of mbufs xs))
              ≡ length p + (length (mbufs x).om_data + length (bytes_of mbufs xs)) =
            omega (
              arith,
              length-append p ((mbufs x).om_data ++ bytes_of mbufs xs),
              length-append (mbufs x).om_data (bytes_of mbufs xs),
            ) in
          let over : leb (length (p ++ ((mbufs x).om_data ++ bytes_of mbufs xs))) most ≡ false =
            ground arith in
          rw at (overflow fuel x most mbufs p live e ∙ rw over refl)
    ]

module _ (mem_capacity unsupported acl_packet_max acl_queue_depth : ℕ) where
  -- A chain of mbufs that the C host hands over is queued as the one packet of its bytes in order, if they
  -- fit the transport's buffer and the queue has room; otherwise the queues stay as they were and
  -- the code is `BLE_ERR_MEM_CAPACITY`. Either way the chain is freed exactly once.
  pub to_ll_acl-bytes :
      (fuel om : ℕ) (qs : Queues) (m : CMemory) (xs : List ℕ)
      → Chain (λ p. (m.mbufs p).om_next) om xs
      → length xs < fuel
      → ble_transport_to_ll_acl_impl mem_capacity unsupported acl_packet_max acl_queue_depth fuel om
          qs m
        ≡ some (
            if leb (length (bytes_of m.mbufs xs)) acl_packet_max
              && ltb (length qs.acl_queue) acl_queue_depth
            then (
              0,
              record {
                cmd_queue = qs.cmd_queue;
                acl_queue = qs.acl_queue ++ bytes_of m.mbufs xs ∷ [];
              },
              give_back om m,
            )
            else (mem_capacity, qs, give_back om m))
  unfolding ble_transport_to_ll_acl_impl try_send
  to_ll_acl-bytes fuel om qs m xs c h =
      let flat = flatten-bytes fuel om acl_packet_max m.mbufs xs [] c h (omega arith) in
      elim (Bool-cases (leb (length (bytes_of m.mbufs xs)) acl_packet_max)) [
        | inl e ↦ elim (Bool-cases (ltb (length qs.acl_queue) acl_queue_depth)) [
          | inl room ↦ rw (flat, e, room) refl
          | inr full ↦ rw (flat, e, full) refl
        ]
        | inr e ↦ rw (flat, e) refl
      ]
