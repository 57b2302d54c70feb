-- ===== src/Hci/Transport.antt =====
-- The outbound side of nimble-rs/src/hci.rs: the `ble_transport_ll_*` and `ble_transport_to_ll_*`
-- symbols that the C host calls, the two bounded channels, and the pump's two loops.
pub mod Flatten
pub mod Drain
pub mod Command
pub mod Receive
pub mod Examples
use nimble_rs.Base.{
  ℕ, zero, suc, ◌+◌, Bool, true, false, Option, none, some, List, [], ◌∷◌, ◌++◌, length,
  if◌then◌else◌, leb, ltb, ◌==◌,
}
use nimble_rs.Hci.Packet.{Packet, cmd_packet_max, ◌>>=◌, extend_from_slice}
use nimble_rs.Hci.Commands.{Features}
use nimble_rs.Hci.Dispatch.{Parties, send_cmd}
use nimble_rs.Hci.Dispatch.Rx.{ControllerToHostPacket, AclHost, rx_dispatch}

-- `os_mbuf`: its `om_len` bytes at `om_data`, and the next mbuf of its chain, 0 at the end.
pub record OsMbuf : Type 0 where
  pub om_data : Packet
  pub om_next : ℕ

-- The C memory that the symbols are handed: mbufs, and flat command buffers by the bytes at their
-- address; and the calls that give them back, most recent first.
pub record CMemory : Type 0 where
  pub mbufs : ℕ → OsMbuf
  pub buffers : ℕ → Packet
  pub freed : List ℕ

-- `CMD_QUEUE` and `ACL_QUEUE`
pub record Queues : Type 0 where
  pub cmd_queue : List Packet
  pub acl_queue : List Packet

-- `CMD_QUEUE_DEPTH`
abbrev pub cmd_queue_depth : ℕ
cmd_queue_depth = 2

-- `Channel::try_send`, with whether it took the packet.
pub try_send : ℕ → Packet → List Packet → Bool × List Packet
try_send depth p q = if ltb (length q) depth then (true, q ++ p ∷ []) else (false, q)

abbrev pub give_back : ℕ → CMemory → CMemory
give_back p m = record { mbufs = m.mbufs; buffers = m.buffers; freed = p ∷ m.freed }

-- `slice::from_raw_parts(buf, len)`: none where the memory there is shorter.
pub read_bytes : ℕ → Packet → Option Packet
read_bytes zero bytes = some []
read_bytes (suc n) [] = none
read_bytes (suc n) (b ∷ bytes) = do rest ← read_bytes n bytes; some (b ∷ rest)

-- `*buf.add(2)`
pub length_byte : Packet → Option ℕ
length_byte (lo ∷ hi ∷ len ∷ params) = some len
length_byte _ = none

-- What a symbol leaves: its code, the queues and the memory.
abbrev pub Outcome : Type 0
Outcome = ℕ × Queues × CMemory

-- The loop that flattens the mbufs from `cur` on: the packet, or an overflow. It runs on fuel.
pub flatten : ℕ → ℕ → ℕ → (ℕ → OsMbuf) → Packet → Option (Option Packet)
flatten acl_packet_max zero cur mbufs packet = none
flatten acl_packet_max (suc fuel) cur mbufs packet = elim (cur == 0) [
  | true ↦ some (some packet)
  | false ↦ elim (extend_from_slice acl_packet_max (mbufs cur).om_data packet) [
    | none ↦ some none
    | some p ↦ flatten acl_packet_max fuel (mbufs cur).om_next mbufs p
  ]
]

module _ (mem_capacity unsupported acl_packet_max acl_queue_depth : ℕ) where
  abbrev cmd_sent : List Packet → CMemory → Bool × List Packet → Outcome
  cmd_sent acls m (true, q) = (0, record { cmd_queue = q; acl_queue = acls }, m)
  cmd_sent acls m (false, q) = (mem_capacity, record { cmd_queue = q; acl_queue = acls }, m)

  -- `ble_transport_to_ll_cmd_impl`
  pub ble_transport_to_ll_cmd_impl : ℕ → Queues → CMemory → Option Outcome
  ble_transport_to_ll_cmd_impl buf qs m = do
    len ← length_byte (m.buffers buf)
    bytes ← read_bytes (3 + len) (m.buffers buf)
    packet ← extend_from_slice cmd_packet_max bytes []
    some (cmd_sent qs.acl_queue (give_back buf m) (try_send cmd_queue_depth packet qs.cmd_queue))

  abbrev acl_sent : List Packet → CMemory → Bool × List Packet → Outcome
  acl_sent cmds m (true, q) = (0, record { cmd_queue = cmds; acl_queue = q }, m)
  acl_sent cmds m (false, q) = (mem_capacity, record { cmd_queue = cmds; acl_queue = q }, m)

  abbrev queue_acl : ℕ → Queues → CMemory → Option Packet → Outcome
  queue_acl om qs m none = (mem_capacity, qs, give_back om m)
  queue_acl om qs m (some packet) =
      acl_sent qs.cmd_queue (give_back om m) (try_send acl_queue_depth packet qs.acl_queue)

  -- `ble_transport_to_ll_acl_impl`
  pub ble_transport_to_ll_acl_impl : ℕ → ℕ → Queues → CMemory → Option Outcome
  ble_transport_to_ll_acl_impl fuel om qs m = do
    flat ← flatten acl_packet_max fuel om m.mbufs []
    some (queue_acl om qs m flat)

  -- `ble_transport_to_ll_iso_impl`
  pub ble_transport_to_ll_iso_impl : ℕ → Queues → CMemory → Outcome
  ble_transport_to_ll_iso_impl om qs m = (unsupported, qs, give_back om m)

-- `while queue.try_receive().is_ok() {}`
pub drop_all : List Packet → List Packet
drop_all [] = []
drop_all (p ∷ q) = drop_all q

-- `ble_transport_ll_deinit`
pub ble_transport_ll_deinit : Queues → Queues
ble_transport_ll_deinit qs = record {
  cmd_queue = drop_all qs.cmd_queue;
  acl_queue = drop_all qs.acl_queue;
}

-- Where a round of a loop ends: in a panic, waiting, or after its body.
pub data Round (S : Type 0) : Type 0 where
  panicked : Round S
  pending : Round S
  next : S → Round S

-- The controller's own input and output of data.
pub record AclController (C A : Type 0) : Type 0 where
  -- `AclPacket::from_hci_bytes_complete`
  pub from_hci_bytes_complete : Packet → Option A
  -- `controller.write_acl_data`; a failure is only logged
  pub write_acl_data : A → C → Bool × C

module _ {C P H A : Type 0} (parties : Parties C P H) (data_path : AclController C A)
    (f : Features) where
  abbrev pub write_acl : Packet → C → C
  write_acl raw ctl = elim (data_path.from_hci_bytes_complete raw) [
    | none ↦ ctl
    | some packet ↦ (data_path.write_acl_data packet ctl).1
  ]

  abbrev after_cmd : List Packet → List Packet → Option (C × H) → Round (Queues × (C × H))
  after_cmd cmds acls none = panicked
  after_cmd cmds acls (some w) = next (record { cmd_queue = cmds; acl_queue = acls }, w)

  -- One round of the TX loop of `pump`: a command, if one is queued, before data.
  pub tx_queued : List Packet → List Packet → C × H → Round (Queues × (C × H))
  tx_queued (cmd ∷ cmds) acls w = after_cmd cmds acls (send_cmd parties f cmd w)
  tx_queued [] (acl ∷ acls) (ctl, host) =
      next (record { cmd_queue = []; acl_queue = acls }, (write_acl acl ctl, host))
  tx_queued [] [] w = pending

  abbrev pub tx_round : Queues × (C × H) → Round (Queues × (C × H))
  tx_round (qs, w) = tx_queued qs.cmd_queue qs.acl_queue w

  -- Rounds of the loop until it waits, as many as the fuel allows.
  pub run_tx : ℕ → Queues × (C × H) → Option (Queues × (C × H))
  run_tx zero s = none
  run_tx (suc fuel) s = elim (tx_round s) [
    | panicked ↦ none
    | pending ↦ some s
    | next t ↦ run_tx fuel t
  ]

-- What the RX loop of `pump` takes from the controller.
pub record ReadController (C B : Type 0) : Type 0 where
  pub alloc_buf : C → Option B × C
  -- `controller.read`: none where it fails
  pub read : B → C → Option ControllerToHostPacket × C

module _ {C P H M B : Type 0} (parties : Parties C P H) (mbufs : AclHost H M) (acl_packet_max : ℕ)
    (reads : ReadController C B) where
  abbrev received : C → H → Option ControllerToHostPacket → Option (C × H)
  received ctl host none = some (ctl, host)
  received ctl host (some packet) = elim (rx_dispatch parties mbufs acl_packet_max packet host) [
    | none ↦ none
    | some h ↦ some (ctl, h)
  ]

  abbrev rx_with : H → Option B × C → Option (C × H)
  rx_with host (none, ctl) = some (ctl, host)
  rx_with host (some buf, ctl) = received (reads.read buf ctl).1 host (reads.read buf ctl).0

  -- One round of the RX loop, none where it panics.
  pub rx_round : C × H → Option (C × H)
  rx_round (ctl, host) = rx_with host (reads.alloc_buf ctl)

  -- Rounds of the loop, none where one panics.
  pub run_rx : ℕ → C × H → Option (C × H)
  run_rx zero w = some w
  run_rx (suc n) w = elim (rx_round w) [ none ↦ none | some v ↦ run_rx n v ]
