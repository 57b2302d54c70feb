-- ===== src/Examples.antt =====
-- The theorems on the log, the L2CAP operations and the driver at concrete inputs.
use nimble_rs.Base.{
  length, first_bytes, zero, suc, ◌-◌, ◌++◌, leb, ◌==◌, if◌then◌else◌, ◌≤◌, has, ◌≢◌, ℕ, Bool, ltb,
  ◌&&◌, ◌+◌, ◌≡◌, ◌⊎◌, refl, true, false, Option, none, some, List, [], ◌∷◌, arith,
}
use nimble_rs.Clog.{LineBuf}
use nimble_rs.Error.{ok, err, check}
use nimble_rs.Gatt.{BleGattService, BleGattServices, new}
use nimble_rs.Gatt.Table.{HasServices, new-HasServices}
use nimble_rs.Gatt.Events.{GattcService, GattcChr, service_found, characteristic_found}
use nimble_rs.Gatt.Discovery.{
  reports, raw_service, raw_chr, report_services, report_chrs, discovery-events,
}
use nimble_rs.Uuid.{UuidTypes, uuid16, make_uuid128}
use nimble_rs.Gap.{GapTypes, GapCodes, RawGapEvent, set_device_name}
use nimble_rs.Gap.Name.{c_string, set_device_name-c_string}
use nimble_rs.Gatt.Static.{gatt_services}
use nimble_rs.Gatt.Views.{view_table, view_static, described, new-gatt_services}
use nimble_rs.Gatt.Heap.{HeapHooks, Sizes, alloc_table, ended}
use nimble_rs.Gatt.Leaks
use nimble_rs.Gatt.Leaks.{alloc_table-balanced}
use nimble_rs.Mbuf.{MbufHost, read, mbuf_from_slice}
use nimble_rs.Mbuf.Copies
use nimble_rs.Mbuf.Copies.{read-mbuf_from_slice}
use nimble_rs.L2cap
use nimble_rs.L2cap.{HostErrors, L2capHost, l2cap_connect}
use nimble_rs.L2cap.Ownership.{Contract, Once, connect-Once}
use nimble_rs.L2cap.Calls.{
  Program, status, sends, receives, HookKeeps, send, recv_ready, event, run, run-owned,
}
use nimble_rs.Driver.{HostC, Process, no_slots}
use nimble_rs.Driver.Single.{
  Call, construct, construct_with_parker, construct_with_services, construct_with_both, drop_driver,
  calls, IsSingle, calls-IsSingle,
}

-- A line in two fragments, one that is not UTF-8, and the start of another.
abbrev fragments : List (ℕ × Option (List ℕ))
fragments = (1, some (72 ∷ 105 ∷ [])) ∷ (0, none) ∷ (3, some (33 ∷ 10 ∷ 200 ∷ 10 ∷ 66 ∷ [])) ∷ []

abbrev empty_line : LineBuf
empty_line = record { buf = []; level = 0 }

-- `from_utf8` on bytes up to 127, of which each is a character.
abbrev is_ascii : List ℕ → Bool
is_ascii [] = true
is_ascii (b ∷ bytes) = ltb b 128 && is_ascii bytes

abbrev codes : HostErrors
codes = record { einval = 3; enomem = 6; enotconn = 7; ebusy = 15; ebaddata = 10; estalled = 31 }

-- A host that keeps the list of the mbufs that were given away, and that leaves every mbuf with the
-- caller: it is busy, or has no connection, or takes no data.
abbrev refusing : L2capHost (List ℕ)
refusing = record {
  os_msys_get_pkthdr = λ size h. (40, h);
  ble_hs_mbuf_from_flat = λ bytes h. (50, h);
  os_mbuf_free_chain = λ om h. om ∷ h;
  ble_l2cap_create_server = λ psm mtu h. (0, h);
  ble_l2cap_connect = λ conn psm mtu om h. (7, h);
  ble_l2cap_send = λ chan om h. (10, h);
  ble_l2cap_recv_ready = λ chan om h. (15, h);
  ble_l2cap_disconnect = λ chan h. (0, h);
}

refusing_contract : Contract refusing codes (λ h. h)
refusing_contract = record {
  frees = λ om h. refl;
  gets = λ size h. refl;
  copies = λ bytes h. refl;
  connect_keeps = λ conn psm mtu om h k. refl;
  connect_takes = λ conn psm mtu om h k m. absurd (ground arith);
  connect_unclear = λ conn psm mtu om h m. absurd (ground arith);
  send_keeps = λ chan om h k. refl;
  send_takes = λ chan om h k. absurd (ground arith);
  recv_keeps = λ chan om h k. refl;
  recv_takes = λ chan om h k. absurd (ground arith);
}

connect-Once_example :
    Once refusing codes (λ h. h) 40 [] (l2cap_connect refusing codes 1 128 100 []).1
    ⊎ (((refusing.ble_l2cap_connect 1 128 100 40 []).0 ≡ 6)
        × ((l2cap_connect refusing codes 1 128 100 []).1 ≡ []))
connect-Once_example = connect-Once refusing codes (λ h. h) refusing_contract 1 128 100 []

-- The numbers of the kinds of event.
abbrev kinds : L2cap.EventTypes
kinds = record {
  connected = 0;
  disconnected = 1;
  accept = 2;
  data_received = 3;
  tx_unstalled = 4;
  reconfig_completed = 5;
  peer_reconfigured = 6;
}

-- An SDU, in mbuf 60.
abbrev sdu_in : L2cap.RawEvent
sdu_in = record { type_ = 3; conn_handle = 1; status = 0; chan = 9; peer_sdu_size = 0; sdu_rx = 60 }

-- A server's hook: it provides a buffer for an accepted channel, and echoes a received SDU and provides
-- the next buffer.
abbrev echo : L2cap.L2capEvent → Program (List ℕ)
echo (L2cap.accept conn size chan) = receives chan size (λ r. status 0)
echo (L2cap.received conn chan mbuf) =
    sends chan (1 ∷ 2 ∷ []) (λ o. receives chan 100 (λ r. status 0))
echo _ = status 0

echo_keeps : HookKeeps refusing codes (λ h. h) (some echo)
echo_keeps (L2cap.connected conn st chan) = tt
echo_keeps (L2cap.disconnected conn chan) = tt
echo_keeps (L2cap.accept conn size chan) = λ r. tt
echo_keeps (L2cap.received conn chan mbuf) = λ o r. tt
echo_keeps (L2cap.tx_unstalled conn st chan) = tt
echo_keeps (L2cap.reconfigured conn st chan by_peer) = tt

run-owned_example :
    run refusing codes kinds
      (some echo)
      (send 9 (1 ∷ 2 ∷ []) ∷ event sdu_in ∷ recv_ready 9 100 ∷ [])
      []
    ≡ 40 ∷ 60 ∷ 40 ∷ 50 ∷ 50 ∷ []
unfolding L2cap.from_raw
run-owned_example =
    run-owned refusing codes (λ h. h) refusing_contract
      (ground arith, ground arith, ground arith, ground arith) kinds (some echo) echo_keeps
      (send 9 (1 ∷ 2 ∷ []) ∷ event sdu_in ∷ recv_ready 9 100 ∷ []) []

-- A host that counts the times it came up, and refuses every service table.
abbrev no_tables : HostC ℕ
no_tables = record {
  os_mempool_module_init = λ h. h;
  ble_buf_alloc = λ h. (0, h);
  ble_buf_free = λ h. h;
  ble_transport_init = λ h. h;
  ble_npl_eventq_init = λ h. h;
  os_msys_init = λ h. h;
  ble_transport_hs_init = λ h. h + 1;
  ble_transport_ll_init = λ h. h;
  ble_npl_eventq_deinit = λ h. h;
  ble_hs_deinit = λ h. h;
  ble_transport_ll_deinit = λ h. h;
  ble_transport_deinit = λ h. h;
  ble_svc_gap_init = λ h. h;
  ble_svc_gatt_init = λ h. h;
  ble_store_ram_init = λ h. h;
  ble_gatts_count_cfg = λ defs h. (0, h);
  ble_gatts_add_svcs = λ defs h. (6, h);
}

abbrev fresh : Process ℕ
fresh = record { taken = false; slots = no_slots; host = 0 }

abbrev usage : List Call
usage =
    construct_with_services 5
    ∷ construct
    ∷ construct_with_parker 8
    ∷ drop_driver
    ∷ construct_with_both 5 8
    ∷ []

calls-IsSingle_example : IsSingle no_tables 2 6 true (calls no_tables 2 6 true usage (0, fresh))
calls-IsSingle_example = calls-IsSingle no_tables 2 6 true usage 0 fresh refl

-- A primary service with two characteristics, and a secondary one with none.
abbrev two_services : List BleGattService
two_services =
    record {
      primary = true;
      uuid = 0x1800;
      characteristics =
          record { uuid = 0x2a00; flags = 2 ∷ [] }
          ∷ record { uuid = 0x2a01; flags = 2 ∷ 8 ∷ [] }
          ∷ [];
    }
    ∷ record { primary = false; uuid = 0x1801; characteristics = [] }
    ∷ []

new-HasServices_example :
    (t : BleGattServices) × (new 1 2 6 (λ i. true) two_services ≡ some (ok t))
    × HasServices 1 2 t 0 0 0 two_services
new-HasServices_example = new-HasServices 1 2 6 (λ i. true) two_services refl

-- A host that keeps the name buffer that it was given.
abbrev keep_name : List ℕ → List ℕ → ℕ × List ℕ
keep_name buf host = (0, buf)

set_device_name-c_string_example :
    ((set_device_name keep_name 3 (66 ∷ 76 ∷ []) [] ≡ (err 3, []))
      × ((64 ≤ 2) ⊎ (has 0 (66 ∷ 76 ∷ []) ≡ true)))
    ⊎ ((buf : List ℕ) × (length buf ≡ 64)
        × (c_string buf ≡ some (66 ∷ 76 ∷ []))
        × (set_device_name keep_name 3 (66 ∷ 76 ∷ []) [] ≡ (check 0, buf)))
set_device_name-c_string_example = set_device_name-c_string keep_name 3 (66 ∷ 76 ∷ []) []

abbrev event_types : GapTypes
event_types = record {
  connect = 0;
  disconnect = 1;
  mtu = 15;
  disc = 7;
  disc_complete = 8;
  passkey_action = 11;
  enc_change = 10;
  subscribe = 14;
  notify_tx = 13;
  notify_rx = 12;
}

abbrev event_codes : GapCodes
event_codes = record {
  disp = 3;
  input = 2;
  numcmp = 4;
  oob = 1;
  reason_write = 1;
  reason_term = 2;
  reason_restore = 3;
}

-- A peer subscribes to notifications of the attribute 9.
abbrev subscribed : RawGapEvent
subscribed = record {
  type_ = 14;
  conn_handle = 1;
  attr_handle = 9;
  status = 0;
  reason = 1;
  value = 0;
  event_type = 0;
  addr = (0, []);
  rssi = 0;
  bytes = none;
  action = 0;
  numcmp = 0;
  prev_notify = 0;
  cur_notify = 1;
  prev_indicate = 0;
  cur_indicate = 0;
  indication = 0;
  om = 0;
}

new-gatt_services_example :
    (t : BleGattServices) × (new 1 2 6 (λ i. true) two_services ≡ some (ok t))
    × (view_table 5 t 0 ≡ some (described 1 2 two_services))
    × (view_static (gatt_services 1 2 two_services) ≡ some (described 1 2 two_services))
new-gatt_services_example =
    new-gatt_services 1 2 6 (λ i. true) two_services 5 (ground arith) (ground arith) refl
      (omega arith)

-- A heap with a number of blocks left, and the number of live blocks at each address.
abbrev Heap : Type 0
Heap = ℕ × (ℕ → ℕ)

abbrev calloc : ℕ → ℕ → Heap → ℕ × Heap
calloc nmemb size (zero, blocks) = (0, (zero, blocks))
calloc nmemb size (suc left, blocks) =
    (suc left, (left, λ q. blocks q + (if q == suc left then 1 else 0)))

abbrev free : ℕ → Heap → Heap
free p (left, blocks) = (left, λ q. blocks q - (if q == p then 1 else 0))

abbrev small_heap : HeapHooks Heap
small_heap = record { nimble_platform_mem_calloc = calloc; nimble_platform_mem_free = free }

abbrev blocks_of : Heap → ℕ → ℕ
blocks_of (left, blocks) q = blocks q

small_heap-grants :
    (nmemb size : ℕ) (m : Heap)
    → (calloc nmemb size m).0 ≢ 0
    → (q : ℕ)
    → blocks_of (calloc nmemb size m).1 q
      ≡ blocks_of m q + (if q == (calloc nmemb size m).0 then 1 else 0)
small_heap-grants nmemb size (zero, blocks) live q = absurd (live refl)
small_heap-grants nmemb size (suc left, blocks) live q = refl

small_heap-refuses :
    (nmemb size : ℕ) (m : Heap)
    → (calloc nmemb size m).0 ≡ 0
    → (q : ℕ) → blocks_of (calloc nmemb size m).1 q ≡ blocks_of m q
small_heap-refuses nmemb size (zero, blocks) e q = refl
small_heap-refuses nmemb size (suc left, blocks) e q = absurd (omega arith)

small_heap-Contract : Leaks.Contract small_heap blocks_of 6
small_heap-Contract = record {
  grants = small_heap-grants;
  refuses = small_heap-refuses;
  frees = λ p m live q. ground arith;
}

abbrev sizes : Sizes
sizes = record { characteristic = 24; uuid = 17; chr_def = 40; svc_def = 32 }

-- The heap refuses the third slice.
alloc_table-balanced_example :
    blocks_of (ended small_heap (alloc_table small_heap 6 sizes 2 2 (2, λ q. 0))) 1 ≡ 0
alloc_table-balanced_example =
    alloc_table-balanced small_heap blocks_of 6 sizes 2 2 (2, λ q. 0) small_heap-Contract 1

-- A host with one mbuf.
abbrev one_mbuf : MbufHost (List ℕ)
one_mbuf = record {
  ble_hs_mbuf_to_flat = λ om max_len h.
      if leb (length h) max_len then (0, h, length h) else (90, first_bytes max_len h, max_len);
  os_mbuf_append = λ om bytes h. (0, h ++ bytes);
  ble_hs_mbuf_from_flat = λ bytes h. (40, bytes);
}

one_mbuf-Contract : Copies.Contract one_mbuf (λ h om. h) 6 90
one_mbuf-Contract = record {
  from_flat = λ bytes h live. refl;
  to_flat = λ om max_len h fits. ground arith;
  to_flat_small = λ om max_len h more. ground arith;
}

read-mbuf_from_slice_example :
    read one_mbuf 6 40 (0 ∷ 0 ∷ 0 ∷ []) (7 ∷ 8 ∷ []) ≡ (ok 2, 7 ∷ 8 ∷ 0 ∷ [])
unfolding mbuf_from_slice
read-mbuf_from_slice_example =
    read-mbuf_from_slice one_mbuf (λ h om. h) 6 90 (7 ∷ 8 ∷ []) (0 ∷ 0 ∷ 0 ∷ []) [] (7 ∷ 8 ∷ []) 40
      one_mbuf-Contract (ground arith) refl

abbrev uuid_types : UuidTypes
uuid_types = record { type_16 = 16; type_128 = 128 }

abbrev gap_service : GattcService
gap_service = record { start_handle = 1; end_handle = 5; uuid = uuid16 0x1800 }

abbrev name_chr : GattcChr
name_chr = record {
  def_handle = 2;
  val_handle = 3;
  properties = 2;
  uuid = make_uuid128 0xb6fccb5087be44f3ae22f85485ea42c4;
}

discovery-events_example :
    (report_services uuid_types 1 (reports 14 (raw_service uuid_types 1 gap_service ∷ [])) []
      ≡ some (service_found 1 0 (some gap_service) ∷ service_found 1 14 none ∷ []))
    × (report_chrs uuid_types 1 (reports 14 (raw_chr uuid_types 1 name_chr ∷ [])) []
        ≡ some (characteristic_found 1 0 (some name_chr) ∷ characteristic_found 1 14 none ∷ []))
discovery-events_example =
    discovery-events uuid_types 1 14 (gap_service ∷ []) (name_chr ∷ []) [] (ground arith)
