-- ===== src/Hci/Dispatch/Rx.antt =====
-- `rx_dispatch`: what the pump does with a packet from the controller.
pub mod Laws
use nimble_rs.Base.{
  ℕ, Bool, false, Option, none, some, [], ◌∷◌, length, if◌then◌else◌, leb, ◌==◌, ◌&&◌, ◌||◌,
}
use nimble_rs.Hci.Packet.{Packet}
use nimble_rs.Hci.Dispatch.{Parties, feed_event}

-- `ControllerToHostPacket`; an ACL packet is its handle with the flags, and its data.
pub data ControllerToHostPacket : Type 0 where
  event : ℕ → Packet → ControllerToHostPacket
  acl : ℕ → Packet → ControllerToHostPacket
  sync : Packet → ControllerToHostPacket
  iso : Packet → ControllerToHostPacket

-- The mbuf side of the host's transport, and the bytes that bt-hci writes an ACL packet as.
pub record AclHost (H M : Type 0) : Type 0 where
  -- `AclPacket::write_hci`, of a handle with its flags and the data
  pub write_hci : ℕ → Packet → Packet
  -- `ble_transport_alloc_acl_from_ll`
  pub ble_transport_alloc_acl_from_ll : H → Option (M × H)
  -- `os_mbuf_append`, with its code
  pub os_mbuf_append : M → Packet → H → ℕ × H
  -- `os_mbuf_free_chain`
  pub os_mbuf_free_chain : M → H → H
  -- `ble_transport_to_hs_acl_impl`
  pub ble_transport_to_hs_acl_impl : M → H → H

-- The events that the larger pool takes: LE meta events with an advertising report.
abbrev pub is_discardable : ℕ → Packet → Bool
is_discardable code [] = false
is_discardable code (sub ∷ params) = code == 0x3e && (sub == 0x02 || sub == 0x0d)

module _ {C P H M : Type 0} (parties : Parties C P H) (mbufs : AclHost H M)
    (acl_packet_max : ℕ) where
  abbrev pass_on : M → ℕ × H → H
  pass_on om (code, h) =
      if code == 0 then mbufs.ble_transport_to_hs_acl_impl om h else mbufs.os_mbuf_free_chain om h

  -- The packet's bytes stand in a buffer of `ACL_PACKET_MAX` bytes, or the bridge panics.
  pub deliver_acl : Packet → H → Option H
  deliver_acl raw host = elim (mbufs.ble_transport_alloc_acl_from_ll host) [
    | none ↦ some host
    | some (om, h) ↦
        if leb (length raw) acl_packet_max
        then some (pass_on om (mbufs.os_mbuf_append om raw h))
        else none
  ]

  -- `rx_dispatch`
  pub rx_dispatch : ControllerToHostPacket → H → Option H
  rx_dispatch (event code params) host =
      some (feed_event parties code params (is_discardable code params) host)
  rx_dispatch (acl handle payload) host = deliver_acl (mbufs.write_hci handle payload) host
  rx_dispatch (sync _) host = some host
  rx_dispatch (iso _) host = some host
