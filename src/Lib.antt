-- ===== src/Lib.antt =====
-- nimble-rs: a model of the Rust side of the NimBLE host driver, with theorems about it.
--
-- The program runs the NimBLE C host without threads. Its parts, and the files that model them:
--
-- - The porting layer, nimble-rs/src/npl.rs, gives the C host events, queues, timers, semaphores,
--   mutexes and critical sections behind raw pointers. Npl/Store.antt is its memory: a record of
--   functions from addresses to nodes, 0 being null, with the wakers that were woken, in order.
--   Npl/Chain.antt has the lemmas on `next` pointers that queues and timers share.
--   - Npl/Eventq.antt: `ble_npl_event_*`, `ble_npl_eventq_*`, `eventq_try_pop`, `eventq_poll`. The
--     predicate IsQueue of Npl/Eventq/Defs.antt refines a queue to a list of events.
--   - Npl/Timers.antt: `ble_npl_callout_*`, `timers_unlink`, `timers_fire_due`. The predicate
--     IsTimers of Npl/Timers/Defs.antt refines the timers to a list sorted by deadline.
--   - Npl/Wait.antt: `wait_until`, the loop behind every blocking call; Npl/Sem.antt and
--     Npl/Mutex.antt: `ble_npl_sem_*` and `ble_npl_mutex_*` on top of it; Npl/Blocking.antt:
--     `ble_npl_eventq_get` and `ble_npl_time_delay`.
--   - Npl/Critical.antt: `ble_npl_hw_enter_critical` and its kin; Npl/Time.antt: `ble_npl_time_*`.
-- - The HCI bridge, nimble-rs/src/hci.rs, stands between the C host and a bt-hci controller.
--   - Hci/Packet.antt and Hci/Ack.antt: bounded packets, and the acknowledgements that the bridge
--     makes for the host (`complete_ack`, `plain_ack`, `status_ack`).
--   - Hci/Commands.antt and Hci/Mask.antt: the controller's contract by Cargo features, and
--     `SUPPORTED_CMDS`.
--   - Hci/Dispatch.antt: `send_cmd`, `sync_cmd`, `async_cmd`, `feed_event`; Hci/Dispatch/Rx.antt:
--     `rx_dispatch`.
--   - Hci/Transport.antt: `ble_transport_to_ll_*_impl`, `ble_transport_ll_deinit` and the loops of
--     `pump`; Hci/Pump.antt: `register_pump`, its guard and `pump_manual`.
-- - nimble-rs/src/clog.rs reassembles the log lines of the C host: Clog.antt.
-- - nimble-rs/src/l2cap.rs: L2cap.antt has its events and operations, L2cap/Ownership.antt and
--   L2cap/Calls.antt what becomes of the mbufs.
-- - nimble-rs/src/lib.rs: Error.antt has `BleError`, Uuid.antt `BleUuid` and `BleAddr`, Driver.antt the
--   construction and the drop of the one driver, Driver/Calls.antt its subscriptions, its address and
--   a poll of `Ble::run`, which Driver/Run.antt is about.
-- - nimble-rs/src/port.rs: Driver.antt has `init` and `deinit`, Port.antt the loops `run_events`,
--   `run_timers` and `drain_events`; nimble-rs/src/npl/parker.rs: Npl/Parker.antt.
-- - nimble-rs/src/mbuf.rs: Mbuf.antt has the copies in and out of mbufs.
-- - nimble-rs/src/gatt.rs and nimble-rs/src/gatt: Gatt.antt has the runtime service table,
--   `BleGattServices::new`, Gatt/Heap.antt its memory (`CSlice` of nimble-rs/src/mem.rs),
--   Gatt/Static.antt the tables of `gatt_services!`; Gatt/Events.antt and Gatt/Flags.antt have the
--   events and flags, Gatt/Server.antt and Gatt/Client.antt the callbacks and operations, with
--   `gatts_register_cb` and `gatts_access_cb` of nimble-rs/src/lib.rs.
-- - nimble-rs/src/gap.rs: Gap.antt has the conversion of connection events, their way to the hooks by
--   role (`gap_event_cb` of nimble-rs/src/lib.rs) and the device name, Gap/Params.antt the parameters
--   of advertising and discovery, Gap/Ops.antt the operations, Gap/Security.antt what calls of
--   `set_security` leave.
-- - nimble-rs-sys/gen/features.rs picks the settings that the C host is compiled with from the Cargo
--   features. Features/Tables.antt has its tables, Features/Resolve.antt `val_settings_for`,
--   Features/Prebuilt.antt `prebuilt_validity`; the others of Features are proofs.
--
-- A blocking wait of the C host (`sem_pend`) polls the HCI bridge (`pump_manual`), whose loops take
-- the host's commands from the transport's queues, run them (`send_cmd`) and feed the
-- acknowledgements back; the events that this puts on the default queue run later. In the model the
-- bridge is the `pump_manual` of the wait's Env, and a poll is a parameter of `pump_manual`. A round of a
-- loop of the bridge is over when the controller's calls in it are.
--
-- Base.antt has the numbers, lists and tests that all files share. The Examples modules apply each
-- theorem to concrete inputs.
--
-- Conventions. Numbers are natural numbers, and the wraps of u8, u16 and u32 are written out. A
-- panic, or a failed `unwrap!`, is none. Loops over linked nodes, waits and drains run on fuel,
-- each with a theorem that says how much is enough: one unit more than there are nodes, packets or
-- milliseconds left, times the rounds that a millisecond may take. A critical section of the source is
-- one step of the model, and debug assertions are left out, as in a release build.
--
-- Not in the repository, and so parameters: the C host's functions, constants and memory, bt-hci's
-- codes and parsers, the controller, the clock and its timers, the parker,
-- `from_utf8` and the subscribed callbacks. What is
-- relied on of them is a hypothesis of the theorem, such as the Contract of L2cap/Ownership.antt.
--
-- Not modelled: the comparison and the printing of UUIDs and addresses, the hooks of nimble-rs/src/mem.rs
-- that delegate to the C heap, the rest of the C host's build (nimble-rs-sys, xtask) and the logging
-- macros (nimble-rs/src/fmt.rs), which are wrappers of C calls, glue or input and output.
pub mod Base
pub mod Npl
pub mod Hci
pub mod Clog
pub mod Error
pub mod Uuid
pub mod Mbuf
pub mod L2cap
pub mod Gatt
pub mod Gap
pub mod Port
pub mod Driver
pub mod Features
pub mod Examples
