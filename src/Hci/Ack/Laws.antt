-- ===== src/Hci/Ack/Laws.antt =====
-- The layout of the synthesized events.
use nimble_rs.Base.{
  ℕ, suc, ◌+◌, ◌-◌, ◌/◌, ◌%◌, ◌≡◌, refl, true, false, none, some, [], ◌∷◌, arith, length,
  if◌then◌else◌, leb, Bool-cases, inl, inr,
}
use nimble_rs.Hci.Packet.{Packet, evt_packet_max}
use nimble_rs.Hci.Ack.{complete_ack, plain_ack, status_ack}

-- The bytes behind a Command Complete event's header: its count of packets, its opcode, its status
-- and the return parameters.
abbrev pub complete_event : ℕ → ℕ → Packet → Packet
complete_event opcode status ret =
    0x0e ∷ (4 + length ret) ∷ 1 ∷ (opcode % 256) ∷ (opcode / 256 % 256) ∷ status ∷ ret

abbrev pub status_event : ℕ → ℕ → Packet
status_event opcode status = 0x0f ∷ 4 ∷ status ∷ 1 ∷ (opcode % 256) ∷ (opcode / 256 % 256) ∷ []

-- A Command Complete event carries its own length, the opcode, the status and the return
-- parameters, as long as these are at most 251 bytes; with more, the bridge panics.
pub complete_ack_layout :
    (opcode status : ℕ) (ret : Packet)
    → complete_ack opcode status (some ret)
      ≡ (if leb (length ret) 251 then some (complete_event opcode status ret) else none)
unfolding complete_ack
complete_ack_layout opcode status ret = elim (Bool-cases (leb (length ret) 251)) [
  | inl e ↦
      let fits : leb (6 + length ret) evt_packet_max ≡ true = ground arith in
      let small : (suc (suc (suc (suc (suc (suc (length ret)))))) - 2) % 256 ≡ 4 + length ret =
        ground arith in
      rw (e, fits, small) refl
  | inr e ↦
      let over : leb (6 + length ret) evt_packet_max ≡ false = ground arith in rw (e, over) refl
]

pub plain_ack_layout :
    (opcode status : ℕ) → plain_ack opcode status ≡ some (complete_event opcode status [])
unfolding plain_ack complete_ack
plain_ack_layout opcode status = refl

pub status_ack_layout :
    (opcode status : ℕ) → status_ack opcode status ≡ some (status_event opcode status)
unfolding status_ack
status_ack_layout opcode status = refl
