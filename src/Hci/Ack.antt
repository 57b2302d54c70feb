-- ===== src/Hci/Ack.antt =====
-- The acknowledgements that nimble-rs/src/hci.rs synthesizes for the host: `ack_status`,
-- `complete_ack`, `plain_ack` and `status_ack`.
pub mod Laws
use nimble_rs.Base.{
  ℕ, ◌+◌, ◌-◌, ◌%◌, Option, none, some, List, [], ◌∷◌, ◌++◌, length, if◌then◌else◌, ltb, leb,
}
use nimble_rs.Hci.Packet.{Packet, evt_packet_max, ◌>>=◌, push, extend_from_slice, to_le_bytes}

-- `STATUS_UNKNOWN_CMD`, `STATUS_INVALID_PARAMS`, `STATUS_HW_FAILURE`
abbrev pub status_unknown_cmd : ℕ
status_unknown_cmd = 0x01

abbrev pub status_invalid_params : ℕ
status_invalid_params = 0x12

abbrev pub status_hw_failure : ℕ
status_hw_failure = 0x03

-- The result of a command: the bytes of its return parameters, `Error::Hci` with its status, or
-- `Error::Io`.
pub data CmdResult : Type 0 where
  done : Packet → CmdResult
  hci_error : ℕ → CmdResult
  io_error : CmdResult

-- `ack_status`
unfoldable pub ack_status : CmdResult → ℕ
ack_status (done _) = 0
ack_status (hci_error e) = e
ack_status io_error = status_hw_failure

-- `evt[1] = byte`
abbrev pub patch_length : ℕ → Packet → Packet
patch_length byte [] = []
patch_length byte (a ∷ []) = a ∷ []
patch_length byte (a ∷ b ∷ rest) = a ∷ byte ∷ rest

abbrev pub append_ret : Option Packet → Packet → Option Packet
append_ret none evt = some evt
append_ret (some ret) evt = extend_from_slice evt_packet_max ret evt

-- `complete_ack`; `ret` holds the bytes that the return parameters are written as.
pub complete_ack : ℕ → ℕ → Option Packet → Option Packet
complete_ack opcode status ret = do
  e1 ← push evt_packet_max 0x0e []
  e2 ← push evt_packet_max 0 e1
  e3 ← push evt_packet_max 1 e2
  e4 ← extend_from_slice evt_packet_max (to_le_bytes opcode) e3
  e5 ← push evt_packet_max status e4
  e6 ← append_ret ret e5
  some (patch_length ((length e6 - 2) % 256) e6)

-- `plain_ack`
pub plain_ack : ℕ → ℕ → Option Packet
plain_ack opcode status = complete_ack opcode status none

-- `status_ack`
pub status_ack : ℕ → ℕ → Option Packet
status_ack opcode status =
    extend_from_slice evt_packet_max (0x0f ∷ 4 ∷ status ∷ 1 ∷ to_le_bytes opcode) []
