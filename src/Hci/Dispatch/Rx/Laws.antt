-- ===== src/Hci/Dispatch/Rx/Laws.antt =====
-- What the host gets of a packet that `rx_dispatch` takes.
use nimble_rs.Base.{
  ℕ, ◌+◌, ◌%◌, ◌≤◌, ◌<◌, ◌≡◌, ◌≢◌, inl, inr, refl, ap, ◌∙◌, Bool, true, Option, none, some, List,
  [], ◌∷◌, ◌++◌, length, arith, leb, ◌==◌, Option-cases, Bool-cases,
}
use nimble_rs.Hci.Packet.{Packet}
use nimble_rs.Hci.Dispatch.{Parties, feed_event}
use nimble_rs.Hci.Dispatch.Rx.{
  ControllerToHostPacket, event, acl, sync, iso, AclHost, is_discardable, deliver_acl, rx_dispatch,
}

-- What the host is given: an event or an ACL packet, by its bytes.
pub data Delivery : Type 0 where
  evt : Packet → Delivery
  data_of : Packet → Delivery

module _ {C P H M : Type 0} (parties : Parties C P H) (mbufs : AclHost H M) where
  -- What the C host documents of its transport. `seen` is what it was given, the last first; `got` and
  -- `handed` count the buffers that it gave out and those that came back, by a delivery or a free;
  -- `bytes` are the bytes of an mbuf, of which a new one has none.
  pub record Contract (seen : H → List Delivery) (got handed : H → ℕ) (bytes : M → H → Packet)
      : Type 0 where
    pub alloc_evt :
        (d : Bool) (h h' : H)
        → parties.ble_transport_alloc_evt d h ≡ some h'
        → (seen h' ≡ seen h) × (got h' ≡ got h + 1) × (handed h' ≡ handed h)
    pub to_hs_evt :
        (ev : Packet) (h : H)
        → (seen (parties.ble_transport_to_hs_evt_impl ev h) ≡ evt ev ∷ seen h)
          × (got (parties.ble_transport_to_hs_evt_impl ev h) ≡ got h)
          × (handed (parties.ble_transport_to_hs_evt_impl ev h) ≡ handed h + 1)
    pub alloc_acl :
        (om : M) (h h' : H)
        → mbufs.ble_transport_alloc_acl_from_ll h ≡ some (om, h')
        → (seen h' ≡ seen h) × (got h' ≡ got h + 1) × (handed h' ≡ handed h) × (bytes om h' ≡ [])
    pub append :
        (om : M) (raw : Packet) (h : H)
        → (seen (mbufs.os_mbuf_append om raw h).1 ≡ seen h)
          × (got (mbufs.os_mbuf_append om raw h).1 ≡ got h)
          × (handed (mbufs.os_mbuf_append om raw h).1 ≡ handed h)
          × ((mbufs.os_mbuf_append om raw h).0 ≡ 0
              → bytes om (mbufs.os_mbuf_append om raw h).1 ≡ bytes om h ++ raw)
    pub free :
        (om : M) (h : H)
        → (seen (mbufs.os_mbuf_free_chain om h) ≡ seen h)
          × (got (mbufs.os_mbuf_free_chain om h) ≡ got h)
          × (handed (mbufs.os_mbuf_free_chain om h) ≡ handed h + 1)
    pub to_hs_acl :
        (om : M) (h : H)
        → (seen (mbufs.ble_transport_to_hs_acl_impl om h) ≡ data_of (bytes om h) ∷ seen h)
          × (got (mbufs.ble_transport_to_hs_acl_impl om h) ≡ got h)
          × (handed (mbufs.ble_transport_to_hs_acl_impl om h) ≡ handed h + 1)

  -- The bytes of a packet on the wire, of a kind that the host is given.
  pub data IsWire : ControllerToHostPacket → Delivery → Type 0 where
    wire_event :
        (code : ℕ) (params : Packet)
        → IsWire (event code params) (evt (code ∷ length params ∷ params))
    wire_acl :
        (handle : ℕ) (payload : Packet)
        → IsWire (acl handle payload) (data_of (mbufs.write_hci handle payload))

  -- Why a host in a state is not given a packet.
  pub data Refused (h : H) : ControllerToHostPacket → Type 0 where
    no_buffer :
        (code : ℕ) (params : Packet)
        → parties.ble_transport_alloc_evt (is_discardable code params) h ≡ none
        → Refused h (event code params)
    no_mbuf :
        (handle : ℕ) (payload : Packet)
        → mbufs.ble_transport_alloc_acl_from_ll h ≡ none
        → Refused h (acl handle payload)
    not_appended :
        (handle : ℕ) (payload : Packet) (om : M) (h' : H)
        → mbufs.ble_transport_alloc_acl_from_ll h ≡ some (om, h')
        → (mbufs.os_mbuf_append om (mbufs.write_hci handle payload) h').0 ≢ 0
        → Refused h (acl handle payload)
    no_sync : (bytes : Packet) → Refused h (sync bytes)
    no_iso : (bytes : Packet) → Refused h (iso bytes)

  -- A packet that the bridge has room for.
  abbrev pub HasRoom : ℕ → ControllerToHostPacket → Type 0
  HasRoom acl_packet_max (event code params) = length params < 256
  HasRoom acl_packet_max (acl handle payload) =
      length (mbufs.write_hci handle payload) ≤ acl_packet_max
  HasRoom acl_packet_max (sync bytes) = Unit
  HasRoom acl_packet_max (iso bytes) = Unit

  module _ (seen : H → List Delivery) (got handed : H → ℕ) (bytes : M → H → Packet) where
    -- What becomes of one packet: it is given to the host whole, or the host refused it.
    pub data Step (p : ControllerToHostPacket) (h h' : H) : Type 0 where
      given : (d : Delivery) → IsWire p d → seen h' ≡ d ∷ seen h → Step p h h'
      dropped : Refused h p → seen h' ≡ seen h → Step p h h'

    -- The packets in order, from a state of the host to a state.
    pub data Delivered : List ControllerToHostPacket → H → H → Type 0 where
      nothing : (h : H) → Delivered [] h h
      then_ :
          {p : ControllerToHostPacket} {ps : List ControllerToHostPacket} {h t : H} (h' : H)
          → Step p h h'
          → Delivered ps h' t
          → Delivered (p ∷ ps) h t

    -- As many buffers came back as were given out.
    abbrev pub IsBalanced : H → H → Type 0
    IsBalanced h t = got t + handed h ≡ got h + handed t

    -- One packet is handled, and no buffer is lost.
    abbrev pub Served : ControllerToHostPacket → H → Option H → Type 0
    Served p h none = ⊥
    Served p h (some h') = Step p h h' × IsBalanced h h'

    module _ (c : Contract seen got handed bytes) where
      event-Served :
          (code : ℕ) (params : Packet) (h : H)
          → length params < 256
          → Served
              (event code params)
              h
              (some (feed_event parties code params (is_discardable code params) h))
      unfolding feed_event
      event-Served code params h small =
          elim (Option-cases (parties.ble_transport_alloc_evt (is_discardable code params) h)) [
            | inl e ↦ rw (e, feed_event) (dropped (no_buffer code params e) refl, refl)
            | inr (h1, e) ↦
                let (seen1, got1, handed1) = c.alloc_evt _ h h1 e in
                let wrap : length params % 256 ≡ length params = omega arith in
                let ev : Packet = code ∷ (length params % 256) ∷ params in
                let (seen2, got2, handed2) = c.to_hs_evt ev h1 in
                rw (e, feed_event)
                  (
                    given (evt (code ∷ length params ∷ params)) (wire_event code params) (
                        seen2
                        ∙ ap (λ n. evt (code ∷ n ∷ params) ∷ seen h1) wrap
                        ∙ ap (λ l. evt (code ∷ length params ∷ params) ∷ l) seen1),
                    omega (arith, got1, got2, handed1, handed2),
                  )
          ]

      acl-Served :
          (acl_packet_max handle : ℕ) (payload : Packet) (h : H)
          → length (mbufs.write_hci handle payload) ≤ acl_packet_max
          → Served
              (acl handle payload)
              h
              (deliver_acl parties mbufs acl_packet_max (mbufs.write_hci handle payload) h)
      unfolding deliver_acl
      acl-Served acl_packet_max handle payload h small =
          let raw = mbufs.write_hci handle payload in
          elim (Option-cases (mbufs.ble_transport_alloc_acl_from_ll h)) [
            | inl e ↦ rw (e, deliver_acl) (dropped (no_mbuf handle payload e) refl, refl)
            | inr ((om, h1), e) ↦
                let fits : leb (length raw) acl_packet_max ≡ true = ground arith in
                let (seen1, got1, handed1, new) = c.alloc_acl om h h1 e in
                let (seen2, got2, handed2, put) = c.append om raw h1 in
                let h2 = (mbufs.os_mbuf_append om raw h1).1 in
                elim (Bool-cases ((mbufs.os_mbuf_append om raw h1).0 == 0)) [
                  | inl z ↦
                      let (seen3, got3, handed3) = c.to_hs_acl om h2 in
                      let whole : bytes om h2 ≡ raw = put (ground arith) ∙ ap (λ b. b ++ raw) new in
                      rw (e, fits, z, deliver_acl)
                        (
                          given (data_of raw) (wire_acl handle payload)
                              (seen3 ∙ (λ i. data_of (whole i) ∷ (seen2 ∙ seen1) i)),
                          omega (arith, got1, got2, got3, handed1, handed2, handed3),
                        )
                  | inr nz ↦
                      let (seen3, got3, handed3) = c.free om h2 in
                      let bad : (mbufs.os_mbuf_append om raw h1).0 ≢ 0 = ground arith in
                      rw (e, fits, nz, deliver_acl)
                        (
                          dropped (not_appended handle payload om h1 e bad) (seen3 ∙ seen2 ∙ seen1),
                          omega (arith, got1, got2, got3, handed1, handed2, handed3),
                        )
                ]
          ]

      pub rx_dispatch-Served :
          (acl_packet_max : ℕ) (p : ControllerToHostPacket) (h : H)
          → HasRoom acl_packet_max p
          → Served p h (rx_dispatch parties mbufs acl_packet_max p h)
      unfolding rx_dispatch
      rx_dispatch-Served acl_packet_max (event code params) h small =
          event-Served code params h small
      rx_dispatch-Served acl_packet_max (acl handle payload) h small =
          acl-Served acl_packet_max handle payload h small
      rx_dispatch-Served acl_packet_max (sync bytes) h small = (dropped (no_sync bytes) refl, refl)
      rx_dispatch-Served acl_packet_max (iso bytes) h small = (dropped (no_iso bytes) refl, refl)
