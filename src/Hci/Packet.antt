-- ===== src/Hci/Packet.antt =====
-- Bounded packets, `heapless::Vec<u8, N>` in nimble-rs/src/hci.rs: a list of bytes that grows up to a
-- capacity. `none` is a failed `unwrap!`, a panic.
use nimble_rs.Base.{
  ℕ, ◌+◌, ◌*◌, ◌/◌, ◌%◌, ◌^◌, ◌<◌, ◌≡◌, Option, none, some, List, [], ◌∷◌, ◌++◌, length, leb, ltb,
  if◌then◌else◌, arith,
}

abbrev pub Packet : Type 0
Packet = List ℕ

-- `CMD_PACKET_MAX`, `EVT_PACKET_MAX`
abbrev pub cmd_packet_max : ℕ
cmd_packet_max = 3 + 255

abbrev pub evt_packet_max : ℕ
evt_packet_max = 2 + 255

infixl 5 ◌>>=◌
abbrev pub ◌>>=◌ {ℓ κ} : {A : Type ℓ} {B : Type κ} → Option A → (A → Option B) → Option B
none >>= f = none
some a >>= f = f a

-- `unwrap!(packet.push(byte).ok())`
abbrev pub push : ℕ → ℕ → Packet → Option Packet
push capacity byte p = if ltb (length p) capacity then some (p ++ byte ∷ []) else none

-- `packet.extend_from_slice(bytes)`
abbrev pub extend_from_slice : ℕ → Packet → Packet → Option Packet
extend_from_slice capacity bytes p =
    if leb (length p + length bytes) capacity then some (p ++ bytes) else none

-- `u16::to_le_bytes` and `u16::from_le_bytes`
abbrev pub to_le_bytes : ℕ → Packet
to_le_bytes n = (n % 256) ∷ (n / 256 % 256) ∷ []

abbrev pub from_le_bytes : ℕ → ℕ → ℕ
from_le_bytes lo hi = lo + 256 * hi

pub from_le_bytes-to_le_bytes : (n : ℕ) → n < 2 ^ 16 → from_le_bytes (n % 256) (n / 256 % 256) ≡ n
from_le_bytes-to_le_bytes n h = omega arith
