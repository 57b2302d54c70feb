-- ===== src/Hci/Dispatch.antt =====
-- The dispatcher of nimble-rs/src/hci.rs: `sync_cmd`, `async_cmd`, `send_cmd`, `feed_event` and
-- `rx_dispatch`. The controller, the codes and parameters of its commands (bt-hci), and the host's
-- side of the transport (C) are parameters; `none` is a panic.
pub mod Laws
pub mod Exec
pub mod Answer
pub mod Rx
use nimble_rs.Base.{
  ℕ, zero, suc, ◌-◌, ◌/◌, ◌%◌, ◌*◌, ◌+◌, Bool, true, false, Option, none, some, List, [], ◌∷◌, ◌++◌,
  length, if◌then◌else◌, leb, ◌==◌, ◌&&◌, ◌||◌, is_some,
}
use nimble_rs.Hci.Packet.{Packet, from_le_bytes}
use nimble_rs.Hci.Ack.{
  CmdResult, done, hci_error, io_error, ack_status, complete_ack, plain_ack, status_ack,
  status_unknown_cmd, status_invalid_params,
}
use nimble_rs.Hci.Commands.{
  Command, le_set_event_mask, read_local_supported_cmds, Features, dispatched, is_async,
}
use nimble_rs.Hci.Mask.{supported_cmds}

-- What the bridge runs on: a controller with a state and typed commands, and the host's transport.
pub record Parties (C P H : Type 0) : Type 0 where
  -- `<T as Cmd>::OPCODE.to_raw()`
  pub opcode_of : Command → ℕ
  -- `<T as Cmd>::Params::from_hci_bytes`
  pub from_hci_bytes : Command → Packet → Option P
  -- `controller.exec`
  pub exec : Command → P → C → CmdResult × C
  -- `ble_transport_alloc_evt`
  pub ble_transport_alloc_evt : Bool → H → Option H
  -- `ble_transport_to_hs_evt_impl`, with the bytes that were written to the buffer
  pub ble_transport_to_hs_evt_impl : Packet → H → H

abbrev pub drop_first : ℕ → Packet → Packet
drop_first zero p = p
drop_first (suc n) [] = []
drop_first (suc n) (b ∷ p) = drop_first n p

abbrev pub take_first : ℕ → Packet → Packet
take_first zero p = []
take_first (suc n) [] = []
take_first (suc n) (b ∷ p) = b ∷ take_first n p

-- `masked[0] &= !0x20`
abbrev pub clear_bit5 : ℕ → ℕ
clear_bit5 m = m - 32 * (m / 32 % 2)

abbrev pub clear_first : Packet → Packet
clear_first [] = []
clear_first (m ∷ p) = clear_bit5 m ∷ p

-- How `send_cmd` treats a command: the two that it treats apart, `nb!` and `sync!`.
pub data Handling : Type 0 where
  masked answered_here by_status by_completion : Handling

unfoldable pub handling : Command → Handling
handling le_set_event_mask = masked
handling read_local_supported_cmds = answered_here
handling c = if is_async c then by_status else by_completion

module _ {C P H : Type 0} (parties : Parties C P H) where
  -- `feed_event`
  pub feed_event : ℕ → Packet → Bool → H → H
  feed_event code params discardable host =
      elim (parties.ble_transport_alloc_evt discardable host) [
        | none ↦ host
        | some h ↦ parties.ble_transport_to_hs_evt_impl (code ∷ (length params % 256) ∷ params) h
      ]

  -- `feed_event(evt[0], &evt[2..], false)`
  pub feed_ack : Option Packet → C × H → Option (C × H)
  feed_ack none w = none
  feed_ack (some []) w = none
  feed_ack (some (code ∷ [])) w = none
  feed_ack (some (code ∷ len ∷ params)) (ctl, host) = some (ctl, feed_event code params false host)

  abbrev pub sync_ack : ℕ → CmdResult → Option Packet
  sync_ack opcode (done ret) = complete_ack opcode 0 (some ret)
  sync_ack opcode (hci_error e) = plain_ack opcode (ack_status (hci_error e))
  sync_ack opcode io_error = plain_ack opcode (ack_status io_error)

  -- `sync_cmd`
  pub sync_cmd : Command → ℕ → Packet → C × H → Option (C × H)
  sync_cmd c opcode params (ctl, host) = elim (parties.from_hci_bytes c params) [
    | none ↦ feed_ack (plain_ack opcode status_invalid_params) (ctl, host)
    | some p ↦
        let (result, ctl') = parties.exec c p ctl in feed_ack (sync_ack opcode result) (ctl', host)
  ]

  -- `async_cmd`
  pub async_cmd : Command → ℕ → Packet → C × H → Option (C × H)
  async_cmd c opcode params (ctl, host) = elim (parties.from_hci_bytes c params) [
    | none ↦ feed_ack (status_ack opcode status_invalid_params) (ctl, host)
    | some p ↦
        let (result, ctl') = parties.exec c p ctl in
        feed_ack (status_ack opcode (ack_status result)) (ctl', host)
  ]

  -- What `send_cmd` does on the code of a command.
  pub run_as : Handling → Features → Command → ℕ → Packet → C × H → Option (C × H)
  run_as masked f c opcode params w =
      if leb 8 (length params)
      then sync_cmd c opcode (clear_first (take_first 8 params)) w
      else sync_cmd c opcode params w
  run_as answered_here f c opcode params w =
      feed_ack (complete_ack opcode 0 (some (supported_cmds f))) w
  run_as by_status f c opcode params w = async_cmd c opcode params w
  run_as by_completion f c opcode params w = sync_cmd c opcode params w

  -- The comparisons of `send_cmd`, in order; none of them holds for an unknown command.
  pub dispatch : Features → List Command → ℕ → Packet → C × H → Option (C × H)
  dispatch f [] opcode params w = feed_ack (plain_ack opcode status_unknown_cmd) w
  dispatch f (c ∷ cs) opcode params w =
      let rest = dispatch f cs opcode params w in
      if opcode == parties.opcode_of c then run_as (handling c) f c opcode params w else rest

  -- `send_cmd`
  pub send_cmd : Features → Packet → C × H → Option (C × H)
  send_cmd f [] w = none
  send_cmd f (lo ∷ []) w = none
  send_cmd f (lo ∷ hi ∷ rest) w =
      dispatch f (dispatched f) (from_le_bytes lo hi) (drop_first 1 rest) w
