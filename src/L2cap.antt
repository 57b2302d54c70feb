-- ===== src/L2cap.antt =====
-- The L2CAP channels of nimble-rs/src/l2cap.rs: the conversion of its events, and the operations
-- that give mbufs to the C host. The C host's functions and constants are parameters; a C `int` is
-- given by the number of its 32 bits, which is how `l2cap_send` compares it.
pub mod Ownership
pub mod Calls
use nimble_rs.Base.{
  ℕ, zero, suc, ◌^◌, ◌%◌, Bool, true, false, Option, none, some, List, [], ◌∷◌, length, first_bytes,
  if◌then◌else◌, ◌==◌, ◌||◌,
}
use nimble_rs.Error.{BleError, Result, ok, err, check}

-- `BLE_L2CAP_EVENT_COC_*`
pub record EventTypes : Type 0 where
  pub connected : ℕ
  pub disconnected : ℕ
  pub accept : ℕ
  pub data_received : ℕ
  pub tx_unstalled : ℕ
  pub reconfig_completed : ℕ
  pub peer_reconfigured : ℕ

-- `ble_l2cap_event`: its type, and what the arms of its union have between them.
pub record RawEvent : Type 0 where
  pub type_ : ℕ
  pub conn_handle : ℕ
  pub status : ℕ
  pub chan : ℕ
  pub peer_sdu_size : ℕ
  pub sdu_rx : ℕ

-- `L2capEvent`, with a channel and an mbuf by their addresses.
pub data L2capEvent : Type 0 where
  connected : (conn_handle status chan : ℕ) → L2capEvent
  disconnected : (conn_handle chan : ℕ) → L2capEvent
  accept : (conn_handle peer_sdu_size chan : ℕ) → L2capEvent
  received : (conn_handle chan mbuf : ℕ) → L2capEvent
  tx_unstalled : (conn_handle status chan : ℕ) → L2capEvent
  reconfigured : (conn_handle status chan : ℕ) → Bool → L2capEvent

-- `SendOutcome`
pub data SendOutcome : Type 0 where
  sent : SendOutcome
  stalled : SendOutcome

-- `BLE_HS_E*`
pub record HostErrors : Type 0 where
  pub einval : ℕ
  pub enomem : ℕ
  pub enotconn : ℕ
  pub ebusy : ℕ
  pub ebaddata : ℕ
  pub estalled : ℕ

-- The C host.
pub record L2capHost (H : Type 0) : Type 0 where
  pub os_msys_get_pkthdr : ℕ → H → ℕ × H
  pub ble_hs_mbuf_from_flat : List ℕ → H → ℕ × H
  pub os_mbuf_free_chain : ℕ → H → H
  pub ble_l2cap_create_server : ℕ → ℕ → H → ℕ × H
  pub ble_l2cap_connect : ℕ → ℕ → ℕ → ℕ → H → ℕ × H
  pub ble_l2cap_send : ℕ → ℕ → H → ℕ × H
  pub ble_l2cap_recv_ready : ℕ → ℕ → H → ℕ × H
  pub ble_l2cap_disconnect : ℕ → H → ℕ × H

-- `L2capEvent::from_raw`
unfoldable pub from_raw : EventTypes → RawEvent → Option L2capEvent
from_raw types e =
    if e.type_ == types.connected
    then some (connected e.conn_handle e.status e.chan)
    else if e.type_ == types.disconnected
    then some (disconnected e.conn_handle e.chan)
    else if e.type_ == types.accept
    then some (accept e.conn_handle e.peer_sdu_size e.chan)
    else if e.type_ == types.data_received
    then some (received e.conn_handle e.chan e.sdu_rx)
    else if e.type_ == types.tx_unstalled
    then some (tx_unstalled e.conn_handle e.status e.chan)
    else if (e.type_ == types.reconfig_completed) || (e.type_ == types.peer_reconfigured)
    then some (reconfigured e.conn_handle e.status e.chan (e.type_ == types.peer_reconfigured))
    else none

module _ {H : Type 0} (host : L2capHost H) (errors : HostErrors) where
  -- `free_mbuf`
  pub free_mbuf : ℕ → H → H
  free_mbuf om h = if om == 0 then h else host.os_mbuf_free_chain om h

  -- `alloc_sdu`
  pub alloc_sdu : ℕ → H → Result ℕ × H
  alloc_sdu size h =
      let (om, h') = host.os_msys_get_pkthdr size h in
      if om == 0 then (err errors.enomem, h') else (ok om, h')

  -- A subscribed hook returns a status, and may call the host.
  abbrev pub Hook : Type 0
  Hook = L2capEvent → H → ℕ × H

  abbrev dispatch_event : Option Hook → Option L2capEvent → H → ℕ × H
  dispatch_event none e h = (0, h)
  dispatch_event (some cb) none h = (0, h)
  dispatch_event (some cb) (some e) h = cb e h

  -- `l2cap_event_cb`
  pub l2cap_event_cb : EventTypes → Option Hook → RawEvent → H → ℕ × H
  l2cap_event_cb types callback e h =
      let (status, h') = dispatch_event callback (from_raw types e) h in
      if e.type_ == types.data_received then (status, free_mbuf e.sdu_rx h') else (status, h')

  -- `l2cap_create_server`
  pub l2cap_create_server : ℕ → ℕ → H → Result {0} Unit × H
  l2cap_create_server psm mtu h =
      let (rc, h') = host.ble_l2cap_create_server psm mtu h in (check rc, h')

  -- `l2cap_connect`, from its buffer on.
  pub connect_with : ℕ → ℕ → ℕ → Result ℕ × H → Result {0} Unit × H
  connect_with conn psm mtu (err e, h) = (err e, h)
  connect_with conn psm mtu (ok sdu_rx, h) =
      let (rc, h') = host.ble_l2cap_connect conn psm mtu sdu_rx h in
      if (rc == errors.enotconn) || (rc == errors.einval)
      then (check rc, free_mbuf sdu_rx h')
      else (check rc, h')

  -- `l2cap_connect`
  pub l2cap_connect : ℕ → ℕ → ℕ → H → Result {0} Unit × H
  l2cap_connect conn psm mtu h = connect_with conn psm mtu (alloc_sdu mtu h)

  abbrev as_sent : Result {0} Unit → Result SendOutcome
  as_sent (ok u) = ok sent
  as_sent (err e) = err e

  -- `l2cap_send`, from its SDU on.
  pub send_with : ℕ → ℕ × H → Result SendOutcome × H
  send_with chan (sdu, h) =
      let (rc, h') = host.ble_l2cap_send chan sdu h in
      if sdu == 0
      then (err errors.enomem, h)
      else if rc == 0
      then (ok sent, h')
      else if rc == errors.estalled
      then (ok stalled, h')
      else if (rc == errors.ebaddata) || (rc == errors.ebusy)
      then (as_sent (check rc), free_mbuf sdu h')
      else (as_sent (check rc), h')

  -- `l2cap_send`; the length of the data is passed on as 16 bits.
  pub l2cap_send : ℕ → List ℕ → H → Result SendOutcome × H
  l2cap_send chan bytes h =
      send_with chan (host.ble_hs_mbuf_from_flat (first_bytes (length bytes % 2 ^ 16) bytes) h)

  -- `l2cap_recv_ready`, from its buffer on.
  pub recv_with : ℕ → Result ℕ × H → Result {0} Unit × H
  recv_with chan (err e, h) = (err e, h)
  recv_with chan (ok sdu_rx, h) =
      let (rc, h') = host.ble_l2cap_recv_ready chan sdu_rx h in
      if (rc == errors.ebusy) || (rc == errors.einval)
      then (check rc, free_mbuf sdu_rx h')
      else (check rc, h')

  -- `l2cap_recv_ready`
  pub l2cap_recv_ready : ℕ → ℕ → H → Result {0} Unit × H
  l2cap_recv_ready chan sdu_size h = recv_with chan (alloc_sdu sdu_size h)

  -- `l2cap_disconnect`
  pub l2cap_disconnect : ℕ → H → Result {0} Unit × H
  l2cap_disconnect chan h = let (rc, h') = host.ble_l2cap_disconnect chan h in (check rc, h')
