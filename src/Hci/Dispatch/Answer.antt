-- ===== src/Hci/Dispatch/Answer.antt =====
-- What the controller does and the host is told of a command that the bridge dispatches.
use nimble_rs.Base.{
  ℕ, ◌+◌, ◌≤◌, ◌<◌, ◌≡◌, ◌≢◌, refl, sym, ap, Option-cases, inl, inr, ◌∙◌, some, none, Option, [],
  ◌∷◌, arith, length, if◌then◌else◌, leb, true,
}
use nimble_rs.Hci.Packet.{Packet, from_le_bytes}
use nimble_rs.Hci.Ack.{
  CmdResult, done, hci_error, io_error, ack_status, complete_ack, plain_ack, status_ack,
  status_invalid_params, status_hw_failure,
}
use nimble_rs.Hci.Ack.Laws.{
  complete_event, status_event, complete_ack_layout, plain_ack_layout, status_ack_layout,
}
use nimble_rs.Hci.Commands
use nimble_rs.Hci.Commands.{Command, Features, dispatched}
use nimble_rs.Hci.Mask.Laws.{Among}
use nimble_rs.Hci.Dispatch.{
  Parties, feed_ack, sync_ack, sync_cmd, async_cmd, handling, run_as, send_cmd, by_status,
  by_completion,
}
use nimble_rs.Hci.Dispatch.Laws.{Fits, take_event, feed_event-take}
use nimble_rs.Hci.Dispatch.Exec.{HasCodes, send_cmd-run}

-- How a command is answered: by a Command Status as soon as the controller has taken it, by a Command
-- Complete once it is done, or by the bridge in a way of its own.
pub data Answer : Type 0 where
  status_first complete_last own_way : Answer

-- The commands that start something on the air or on a link, and end with an event of their own, are
-- those that a Command Status answers.
abbrev pub answer : Command → Answer
answer Commands.le_conn_update = status_first
answer Commands.le_create_conn = status_first
answer Commands.le_enable_encryption = status_first
answer Commands.le_read_remote_features = status_first
answer Commands.read_remote_version_information = status_first
answer Commands.le_set_event_mask = own_way
answer Commands.read_local_supported_cmds = own_way
answer _ = complete_last

-- How `send_cmd` handles a command, by its answer.
data Way (c : Command) : Type 0 where
  by_status_first : answer c ≡ status_first → handling c ≡ by_status → Way c
  by_complete_last : answer c ≡ complete_last → handling c ≡ by_completion → Way c
  in_own_way : answer c ≡ own_way → Way c

way : (c : Command) → Way c
unfolding handling
way Commands.reset = by_complete_last refl refl
way Commands.set_event_mask = by_complete_last refl refl
way Commands.set_event_mask_page2 = by_complete_last refl refl
way Commands.le_set_event_mask = in_own_way refl
way Commands.read_local_version_information = by_complete_last refl refl
way Commands.read_local_supported_cmds = in_own_way refl
way Commands.read_local_supported_features = by_complete_last refl refl
way Commands.read_bd_addr = by_complete_last refl refl
way Commands.le_read_buffer_size = by_complete_last refl refl
way Commands.le_read_local_supported_features = by_complete_last refl refl
way Commands.le_rand = by_complete_last refl refl
way Commands.le_set_random_addr = by_complete_last refl refl
way Commands.le_set_adv_enable = by_complete_last refl refl
way Commands.le_set_addr_resolution_enable = by_complete_last refl refl
way Commands.le_clear_resolving_list = by_complete_last refl refl
way Commands.le_add_device_to_resolving_list = by_complete_last refl refl
way Commands.le_remove_device_from_resolving_list = by_complete_last refl refl
way Commands.le_set_privacy_mode = by_complete_last refl refl
way Commands.le_set_resolvable_private_addr_timeout = by_complete_last refl refl
way Commands.disconnect = by_complete_last refl refl
way Commands.le_read_remote_features = by_status_first refl refl
way Commands.read_remote_version_information = by_status_first refl refl
way Commands.le_set_data_length = by_complete_last refl refl
way Commands.le_read_suggested_default_data_length = by_complete_last refl refl
way Commands.le_write_suggested_default_data_length = by_complete_last refl refl
way Commands.le_read_channel_map = by_complete_last refl refl
way Commands.read_rssi = by_complete_last refl refl
way Commands.le_add_device_to_filter_accept_list = by_complete_last refl refl
way Commands.le_remove_device_from_filter_accept_list = by_complete_last refl refl
way Commands.le_clear_filter_accept_list = by_complete_last refl refl
way Commands.le_read_filter_accept_list_size = by_complete_last refl refl
way Commands.le_set_adv_params = by_complete_last refl refl
way Commands.le_set_adv_data = by_complete_last refl refl
way Commands.le_set_scan_response_data = by_complete_last refl refl
way Commands.le_read_adv_physical_channel_tx_power = by_complete_last refl refl
way Commands.le_set_scan_params = by_complete_last refl refl
way Commands.le_set_scan_enable = by_complete_last refl refl
way Commands.le_create_conn = by_status_first refl refl
way Commands.le_create_conn_cancel = by_complete_last refl refl
way Commands.le_conn_update = by_status_first refl refl
way Commands.le_set_host_channel_classification = by_complete_last refl refl
way Commands.le_enable_encryption = by_status_first refl refl
way Commands.le_long_term_key_request_reply = by_complete_last refl refl
way Commands.le_long_term_key_request_negative_reply = by_complete_last refl refl

-- The event for the parameters that the controller does not take.
abbrev pub refusal : Answer → ℕ → Packet
refusal status_first opcode = status_event opcode status_invalid_params
refusal _ opcode = complete_event opcode status_invalid_params []

-- The event for what the controller returned.
abbrev pub answered : Answer → ℕ → CmdResult → Packet
answered status_first opcode (done ret) = status_event opcode 0
answered status_first opcode (hci_error e) = status_event opcode e
answered status_first opcode io_error = status_event opcode status_hw_failure
answered _ opcode (done ret) = complete_event opcode 0 ret
answered _ opcode (hci_error e) = complete_event opcode e []
answered _ opcode io_error = complete_event opcode status_hw_failure []

module _ {C P H : Type 0} (parties : Parties C P H) where
  -- The controller is given the command with its parameters once, if it takes them, and the host is
  -- given the one event.
  abbrev pub executed : Answer → Command → ℕ → Option P → C × H → Option (C × H)
  executed way c opcode none (ctl, host) = some (ctl, take_event parties (refusal way opcode) host)
  executed way c opcode (some p) (ctl, host) = some (
    (parties.exec c p ctl).1,
    take_event parties (answered way opcode (parties.exec c p ctl).0) host,
  )

  fed :
      (ack : Option Packet) (code len : ℕ) (params : Packet) (ctl : C) (host : H)
      → ack ≡ some (code ∷ len ∷ params)
      → length params ≡ len
      → len < 256
      → feed_ack parties ack (ctl, host) ≡ some (ctl, take_event parties (code ∷ len ∷ params) host)
  unfolding feed_ack
  fed ack code len params ctl host e size small =
      ap (λ a. feed_ack parties a (ctl, host)) e
      ∙ ap (λ h. some (ctl, h)) (feed_event-take parties code len params host size small)

  plain_fed :
      (opcode st : ℕ) (ctl : C) (host : H)
      → feed_ack parties (plain_ack opcode st) (ctl, host)
        ≡ some (ctl, take_event parties (complete_event opcode st []) host)
  plain_fed opcode st ctl host =
      fed _ 0x0e 4 _ ctl host (plain_ack_layout opcode st) refl (omega arith)

  status_fed :
      (opcode st : ℕ) (ctl : C) (host : H)
      → feed_ack parties (status_ack opcode st) (ctl, host)
        ≡ some (ctl, take_event parties (status_event opcode st) host)
  status_fed opcode st ctl host =
      fed _ 0x0f 4 _ ctl host (status_ack_layout opcode st) refl (omega arith)

  complete_fed :
      (opcode : ℕ) (ret : Packet) (ctl : C) (host : H)
      → length ret ≤ 251
      → feed_ack parties (complete_ack opcode 0 (some ret)) (ctl, host)
        ≡ some (ctl, take_event parties (complete_event opcode 0 ret) host)
  complete_fed opcode ret ctl host h =
      let fits : leb (length ret) 251 ≡ true = ground arith in
      fed _ 0x0e (4 + length ret) _ ctl host
        (complete_ack_layout opcode 0 ret
          ∙ ap (λ b. if b then some (complete_event opcode 0 ret) else none) fits)
        (omega arith) (omega arith)

  sync_fed :
      (opcode : ℕ) (r : CmdResult) (ctl : C) (host : H)
      → ((ret : Packet) → r ≡ done ret → length ret ≤ 251)
      → feed_ack parties (sync_ack parties opcode r) (ctl, host)
        ≡ some (ctl, take_event parties (answered complete_last opcode r) host)
  unfolding ack_status
  sync_fed opcode (done ret) ctl host h = complete_fed opcode ret ctl host (h ret refl)
  sync_fed opcode (hci_error e) ctl host h = plain_fed opcode e ctl host
  sync_fed opcode io_error ctl host h = plain_fed opcode status_hw_failure ctl host

  async_fed :
      (opcode : ℕ) (r : CmdResult) (ctl : C) (host : H)
      → feed_ack parties (status_ack opcode (ack_status r)) (ctl, host)
        ≡ some (ctl, take_event parties (answered status_first opcode r) host)
  unfolding ack_status
  async_fed opcode (done ret) ctl host = status_fed opcode 0 ctl host
  async_fed opcode (hci_error e) ctl host = status_fed opcode e ctl host
  async_fed opcode io_error ctl host = status_fed opcode status_hw_failure ctl host

  sync_executed :
      Fits parties
      → (c : Command) (opcode : ℕ) (params : Packet) (w : C × H)
      → sync_cmd parties c opcode params w
        ≡ executed complete_last c opcode (parties.from_hci_bytes c params) w
  unfolding sync_cmd
  sync_executed fits c opcode params (ctl, host) =
      elim (Option-cases (parties.from_hci_bytes c params)) [
        | inl bad ↦ rw (bad, sync_cmd) (plain_fed opcode status_invalid_params ctl host)
        | inr (p, got) ↦
            rw (got, sync_cmd)
              (sync_fed opcode (parties.exec c p ctl).0 (parties.exec c p ctl).1 host
                (fits c p ctl))
      ]

  async_executed :
      (c : Command) (opcode : ℕ) (params : Packet) (w : C × H)
      → async_cmd parties c opcode params w
        ≡ executed status_first c opcode (parties.from_hci_bytes c params) w
  unfolding async_cmd
  async_executed c opcode params (ctl, host) =
      elim (Option-cases (parties.from_hci_bytes c params)) [
        | inl bad ↦ rw (bad, async_cmd) (status_fed opcode status_invalid_params ctl host)
        | inr (p, got) ↦
            rw (got, async_cmd)
              (async_fed opcode (parties.exec c p ctl).0 (parties.exec c p ctl).1 host)
      ]

  -- A packet with the code of a command that is dispatched in the configuration, but LE Set Event Mask
  -- and Read Local Supported Commands: if the controller takes the parameters behind the packet's length
  -- byte, it executes that command with them, once, and the host is given the one event that tells what
  -- it returned; if not, the controller is left as it was, and the event says that the parameters are
  -- invalid. The event is a Command Status for the five commands that end with an event of their own, and
  -- else a Command Complete, with the return parameters. It holds if the codes differ and no command
  -- returns more than 251 bytes.
  pub send_cmd-executed :
      HasCodes parties
      → Fits parties
      → (f : Features) (c : Command) (lo hi len : ℕ) (params : Packet) (w : C × H)
      → Among c (dispatched f)
      → from_le_bytes lo hi ≡ parties.opcode_of c
      → answer c ≢ own_way
      → send_cmd parties f (lo ∷ hi ∷ len ∷ params) w
        ≡ executed (answer c) c (parties.opcode_of c) (parties.from_hci_bytes c params) w
  unfolding run_as
  send_cmd-executed codes fits f c lo hi len params w m e usual =
      let opcode = parties.opcode_of c in
      let p = parties.from_hci_bytes c params in
      send_cmd-run parties codes f c lo hi len params w m e ∙ elim (way c) [
        | by_status_first a h ↦
            ap (λ k. run_as parties k f c opcode params w) h
            ∙ async_executed c opcode params w
            ∙ ap (λ k. executed k c opcode p w) (sym a)
        | by_complete_last a h ↦
            ap (λ k. run_as parties k f c opcode params w) h
            ∙ sync_executed fits c opcode params w
            ∙ ap (λ k. executed k c opcode p w) (sym a)
        | in_own_way a ↦ absurd (usual a)
      ]
