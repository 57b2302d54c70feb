-- ===== src/Hci/Dispatch/Laws.antt =====
-- What the host and the controller see of a command that `send_cmd` takes.
use nimble_rs.Base.{
  ℕ, ◌+◌, ◌%◌, ◌≤◌, ◌<◌, ◌≡◌, refl, ap, ◌∙◌, Bool, true, false, Option, none, some, List, [], ◌∷◌,
  arith, length, if◌then◌else◌, leb, ◌==◌, Option-cases, inl, inr,
}
use nimble_rs.Hci.Packet.{Packet, from_le_bytes}
use nimble_rs.Hci.Ack.{
  CmdResult, done, hci_error, io_error, ack_status, complete_ack, plain_ack, status_ack,
  status_unknown_cmd, status_invalid_params,
}
use nimble_rs.Hci.Ack.Laws.{
  complete_event, status_event, complete_ack_layout, plain_ack_layout, status_ack_layout,
}
use nimble_rs.Hci.Commands.{Command, Features, dispatched}
use nimble_rs.Hci.Mask.{supported_cmds}
use nimble_rs.Hci.Mask.Laws.{supported_cmds-length}
use nimble_rs.Hci.Dispatch.{
  Parties, feed_ack, sync_ack, sync_cmd, async_cmd, Handling, masked, answered_here, by_status,
  by_completion, handling, run_as, clear_first, take_first, dispatch, send_cmd, drop_first,
  feed_event,
}

-- An acknowledgement of a command's code: a Command Complete or a Command Status event.
pub data IsAck (opcode : ℕ) : Packet → Type 0 where
  complete :
      (status : ℕ) (ret : Packet)
      → length ret ≤ 251
      → IsAck opcode (complete_event opcode status ret)
  status : (status : ℕ) → IsAck opcode (status_event opcode status)

module _ {C P H : Type 0} (parties : Parties C P H) where
  -- The host takes an event, unless its pool is empty.
  abbrev pub take_event : Packet → H → H
  take_event ev host = elim (parties.ble_transport_alloc_evt false host) [
    | none ↦ host
    | some h ↦ parties.ble_transport_to_hs_evt_impl ev h
  ]

  -- No command returns more than an event has room for.
  abbrev pub Fits : Type 0
  Fits =
      (c : Command) (p : P) (ctl : C) (ret : Packet)
      → (parties.exec c p ctl).0 ≡ done ret
      → length ret ≤ 251

  -- The host was given one acknowledgement of the code, and nothing else.
  abbrev pub IsAcked : ℕ → H → Option (C × H) → Type 0
  IsAcked opcode host none = ⊥
  IsAcked opcode host (some (ctl, host')) =
      (ev : Packet) × IsAck opcode ev × (host' ≡ take_event ev host)

  pub feed_event-take :
      (code len : ℕ) (params : Packet) (host : H)
      → length params ≡ len
      → len < 256
      → feed_event parties code params false host ≡ take_event (code ∷ len ∷ params) host
  unfolding feed_event
  feed_event-take code len params host e h =
      let same : length params % 256 ≡ len = ground arith in
      ap (λ n. take_event (code ∷ n ∷ params) host) same

  feed_ack-IsAcked :
      (opcode : ℕ) (ack : Option Packet) (ev : Packet) (ctl : C) (host : H)
      → ack ≡ some ev
      → IsAck opcode ev
      → IsAcked opcode host (feed_ack parties ack (ctl, host))
  unfolding feed_ack
  feed_ack-IsAcked opcode ack _ ctl host e (complete st ret h) = rw e (
    complete_event opcode st ret,
    complete st ret h,
    feed_event-take 0x0e (4 + length ret) _ host (omega arith) (omega arith),
  )
  feed_ack-IsAcked opcode ack _ ctl host e (status st) =
      rw e (status_event opcode st, status st, feed_event-take 0x0f 4 _ host refl (omega arith))

  plain-IsAcked :
      (opcode st : ℕ) (ctl : C) (host : H)
      → IsAcked opcode host (feed_ack parties (plain_ack opcode st) (ctl, host))
  plain-IsAcked opcode st ctl host =
      feed_ack-IsAcked opcode _ _ ctl host (plain_ack_layout opcode st)
        (complete st [] (omega arith))

  status-IsAcked :
      (opcode st : ℕ) (ctl : C) (host : H)
      → IsAcked opcode host (feed_ack parties (status_ack opcode st) (ctl, host))
  status-IsAcked opcode st ctl host =
      feed_ack-IsAcked opcode _ _ ctl host (status_ack_layout opcode st) (status st)

  complete-IsAcked :
      (opcode st : ℕ) (ret : Packet) (ctl : C) (host : H)
      → length ret ≤ 251
      → IsAcked opcode host (feed_ack parties (complete_ack opcode st (some ret)) (ctl, host))
  complete-IsAcked opcode st ret ctl host h =
      let fits : leb (length ret) 251 ≡ true = ground arith in
      feed_ack-IsAcked opcode _ _ ctl host
        (complete_ack_layout opcode st ret
          ∙ ap (λ b. if b then some (complete_event opcode st ret) else none) fits)
        (complete st ret h)

  result-IsAcked :
      (opcode : ℕ) (r : CmdResult) (ctl : C) (host : H)
      → ((ret : Packet) → r ≡ done ret → length ret ≤ 251)
      → IsAcked opcode host (feed_ack parties (sync_ack parties opcode r) (ctl, host))
  result-IsAcked opcode (done ret) ctl host h = complete-IsAcked opcode 0 ret ctl host (h ret refl)
  result-IsAcked opcode (hci_error e) ctl host h = plain-IsAcked opcode _ ctl host
  result-IsAcked opcode io_error ctl host h = plain-IsAcked opcode _ ctl host

  sync_cmd-IsAcked :
      Fits
      → (c : Command) (opcode : ℕ) (params : Packet) (ctl : C) (host : H)
      → IsAcked opcode host (sync_cmd parties c opcode params (ctl, host))
  unfolding sync_cmd
  sync_cmd-IsAcked fits c opcode params ctl host =
      elim (Option-cases (parties.from_hci_bytes c params)) [
        | inl bad ↦ rw (bad, sync_cmd) (plain-IsAcked opcode status_invalid_params ctl host)
        | inr (p, got) ↦
            rw (got, sync_cmd)
              (result-IsAcked opcode (parties.exec c p ctl).0 (parties.exec c p ctl).1 host
                (fits c p ctl))
      ]

  async_cmd-IsAcked :
      (c : Command) (opcode : ℕ) (params : Packet) (ctl : C) (host : H)
      → IsAcked opcode host (async_cmd parties c opcode params (ctl, host))
  unfolding async_cmd
  async_cmd-IsAcked c opcode params ctl host =
      elim (Option-cases (parties.from_hci_bytes c params)) [
        | inl bad ↦ rw (bad, async_cmd) (status-IsAcked opcode status_invalid_params ctl host)
        | inr (p, got) ↦
            rw (got, async_cmd)
              (status-IsAcked opcode (ack_status (parties.exec c p ctl).0) (parties.exec c p ctl).1
                host)
      ]

  by_case :
      (opcode : ℕ) (host : H) (b : Bool) (x y : Option (C × H))
      → IsAcked opcode host x
      → IsAcked opcode host y
      → IsAcked opcode host (if b then x else y)
  by_case opcode host true x y h k = h
  by_case opcode host false x y h k = k

  run_as-IsAcked :
      Fits
      → (how : Handling) (f : Features) (c : Command) (opcode : ℕ) (params : Packet)
      → (ctl : C) (host : H)
      → IsAcked opcode host (run_as parties how f c opcode params (ctl, host))
  unfolding run_as
  run_as-IsAcked fits masked f c opcode params ctl host =
      by_case opcode host (leb 8 (length params)) _ _
        (sync_cmd-IsAcked fits c opcode (clear_first (take_first 8 params)) ctl host)
        (sync_cmd-IsAcked fits c opcode params ctl host)
  run_as-IsAcked fits answered_here f c opcode params ctl host =
      complete-IsAcked opcode 0 (supported_cmds f) ctl host (omega (arith, supported_cmds-length f))
  run_as-IsAcked fits by_status f c opcode params ctl host =
      async_cmd-IsAcked c opcode params ctl host
  run_as-IsAcked fits by_completion f c opcode params ctl host =
      sync_cmd-IsAcked fits c opcode params ctl host

  dispatch-IsAcked :
      Fits
      → (f : Features) (cs : List Command) (opcode : ℕ) (params : Packet) (ctl : C) (host : H)
      → IsAcked opcode host (dispatch parties f cs opcode params (ctl, host))
  unfolding dispatch
  dispatch-IsAcked fits f [] opcode params ctl host =
      plain-IsAcked opcode status_unknown_cmd ctl host
  dispatch-IsAcked fits f (c ∷ cs) opcode params ctl host =
      by_case opcode host (opcode == parties.opcode_of c) _ _
        (run_as-IsAcked fits (handling c) f c opcode params ctl host)
        (dispatch-IsAcked fits f cs opcode params ctl host)

  -- For every command packet with a code, known or not, well formed or not, done or refused, the
  -- bridge makes exactly one event, a Command Complete or a Command Status of that code, and gives
  -- it to the host, which takes it unless its pool of events is empty. It holds of a controller
  -- whose return parameters are at most 251 bytes.
  pub send_cmd-IsAcked :
      Fits
      → (f : Features) (lo hi : ℕ) (rest : Packet) (ctl : C) (host : H)
      → IsAcked (from_le_bytes lo hi) host (send_cmd parties f (lo ∷ hi ∷ rest) (ctl, host))
  unfolding send_cmd
  send_cmd-IsAcked fits f lo hi rest ctl host =
      dispatch-IsAcked fits f (dispatched f) (from_le_bytes lo hi) (drop_first 1 rest) ctl host
