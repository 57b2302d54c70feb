-- ===== src/Hci/Examples.antt =====
-- The theorems on the HCI bridge at concrete packets, and tests of its operations.
use nimble_rs.Base.{
  ℕ, zero, suc, ◌+◌, ◌<◌, ◌≡◌, ◌↔◌, refl, ap, sym, ◌∙◌, true, false, not, some, List, [], ◌∷◌, ◌++◌,
  arith, ◌==◌, ◌&&◌, if◌then◌else◌,
}
use nimble_rs.Hci.Packet.{Packet, ◌>>=◌}
use nimble_rs.Hci.Ack.{done, status_unknown_cmd}
use nimble_rs.Hci.Ack.Laws.{complete_event}
use nimble_rs.Hci.Commands
use nimble_rs.Hci.Commands.{Command, Features, dispatched}
use nimble_rs.Hci.Mask.{supported_cmds}
use nimble_rs.Hci.Mask.Bits.{bit, bit_at}
use nimble_rs.Hci.Mask.Laws.{position, Among, here, later, supported_cmds-dispatched}
use nimble_rs.Hci.Dispatch.{Parties, send_cmd, sync_cmd}
use nimble_rs.Hci.Dispatch.Laws.{IsAcked, Fits, take_event, send_cmd-IsAcked}
use nimble_rs.Hci.Dispatch.Answer.{executed, status_first, send_cmd-executed}
use nimble_rs.Hci.Dispatch.Exec.{HasCodes, send_cmd-unknown, send_cmd-event_mask}
use nimble_rs.Hci.Transport.{
  CMemory, Queues, give_back, ble_transport_to_ll_cmd_impl, ble_transport_to_ll_acl_impl,
  AclController, run_tx,
}
use nimble_rs.Hci.Transport.Flatten.{to_ll_acl-bytes}
use nimble_rs.Hci.Transport.Drain.{send_all, write_all, run_tx-drained}
use nimble_rs.Hci.Transport.Command.{no_packets, parties_after, command-IsAcked}
use nimble_rs.Hci.Pump.{PumpSlot, pump_manual}
use nimble_rs.Hci.Pump.Laws.{Polls, IsIdle, call_all, nested_poll, pump_manual-exclusive}

-- A central with the Security Manager.
abbrev central_only : Features
central_only = record {
  central = true;
  peripheral = false;
  broadcaster = false;
  observer = true;
  sm = true;
  sm_sc_only = false;
}

supported_cmds-dispatched_example :
    (bit 22 2 (supported_cmds central_only) ≡ true)
    ↔ ((c : Command) × Among c (dispatched central_only) × (position c ≡ (22, 2)))
supported_cmds-dispatched_example = supported_cmds-dispatched central_only 22 2 (omega arith)

-- All commands, and the place of each.
abbrev all_commands : List Command
all_commands =
    Commands.reset ∷ Commands.set_event_mask ∷ Commands.set_event_mask_page2
    ∷ Commands.le_set_event_mask ∷ Commands.read_local_version_information
    ∷ Commands.read_local_supported_cmds ∷ Commands.read_local_supported_features
    ∷ Commands.read_bd_addr ∷ Commands.le_read_buffer_size
    ∷ Commands.le_read_local_supported_features ∷ Commands.le_rand ∷ Commands.le_set_random_addr
    ∷ Commands.le_set_adv_enable ∷ Commands.le_set_addr_resolution_enable
    ∷ Commands.le_clear_resolving_list ∷ Commands.le_add_device_to_resolving_list
    ∷ Commands.le_remove_device_from_resolving_list ∷ Commands.le_set_privacy_mode
    ∷ Commands.le_set_resolvable_private_addr_timeout ∷ Commands.disconnect
    ∷ Commands.le_read_remote_features ∷ Commands.read_remote_version_information
    ∷ Commands.le_set_data_length ∷ Commands.le_read_suggested_default_data_length
    ∷ Commands.le_write_suggested_default_data_length ∷ Commands.le_read_channel_map
    ∷ Commands.read_rssi ∷ Commands.le_add_device_to_filter_accept_list
    ∷ Commands.le_remove_device_from_filter_accept_list ∷ Commands.le_clear_filter_accept_list
    ∷ Commands.le_read_filter_accept_list_size ∷ Commands.le_set_adv_params
    ∷ Commands.le_set_adv_data ∷ Commands.le_set_scan_response_data
    ∷ Commands.le_read_adv_physical_channel_tx_power ∷ Commands.le_set_scan_params
    ∷ Commands.le_set_scan_enable ∷ Commands.le_create_conn ∷ Commands.le_create_conn_cancel
    ∷ Commands.le_conn_update ∷ Commands.le_set_host_channel_classification
    ∷ Commands.le_enable_encryption ∷ Commands.le_long_term_key_request_reply
    ∷ Commands.le_long_term_key_request_negative_reply ∷ []

abbrev code : Command → ℕ
code Commands.reset = 0
code Commands.set_event_mask = 1
code Commands.set_event_mask_page2 = 2
code Commands.le_set_event_mask = 3
code Commands.read_local_version_information = 4
code Commands.read_local_supported_cmds = 5
code Commands.read_local_supported_features = 6
code Commands.read_bd_addr = 7
code Commands.le_read_buffer_size = 8
code Commands.le_read_local_supported_features = 9
code Commands.le_rand = 10
code Commands.le_set_random_addr = 11
code Commands.le_set_adv_enable = 12
code Commands.le_set_addr_resolution_enable = 13
code Commands.le_clear_resolving_list = 14
code Commands.le_add_device_to_resolving_list = 15
code Commands.le_remove_device_from_resolving_list = 16
code Commands.le_set_privacy_mode = 17
code Commands.le_set_resolvable_private_addr_timeout = 18
code Commands.disconnect = 19
code Commands.le_read_remote_features = 20
code Commands.read_remote_version_information = 21
code Commands.le_set_data_length = 22
code Commands.le_read_suggested_default_data_length = 23
code Commands.le_write_suggested_default_data_length = 24
code Commands.le_read_channel_map = 25
code Commands.read_rssi = 26
code Commands.le_add_device_to_filter_accept_list = 27
code Commands.le_remove_device_from_filter_accept_list = 28
code Commands.le_clear_filter_accept_list = 29
code Commands.le_read_filter_accept_list_size = 30
code Commands.le_set_adv_params = 31
code Commands.le_set_adv_data = 32
code Commands.le_set_scan_response_data = 33
code Commands.le_read_adv_physical_channel_tx_power = 34
code Commands.le_set_scan_params = 35
code Commands.le_set_scan_enable = 36
code Commands.le_create_conn = 37
code Commands.le_create_conn_cancel = 38
code Commands.le_conn_update = 39
code Commands.le_set_host_channel_classification = 40
code Commands.le_enable_encryption = 41
code Commands.le_long_term_key_request_reply = 42
code Commands.le_long_term_key_request_negative_reply = 43

command_at : ℕ → List Command → Command
command_at n [] = Commands.reset
command_at zero (c ∷ cs) = c
command_at (suc n) (c ∷ cs) = command_at n cs

command_at-code : (c : Command) → command_at (code c) all_commands ≡ c
unfolding command_at
command_at-code Commands.reset = refl
command_at-code Commands.set_event_mask = refl
command_at-code Commands.set_event_mask_page2 = refl
command_at-code Commands.le_set_event_mask = refl
command_at-code Commands.read_local_version_information = refl
command_at-code Commands.read_local_supported_cmds = refl
command_at-code Commands.read_local_supported_features = refl
command_at-code Commands.read_bd_addr = refl
command_at-code Commands.le_read_buffer_size = refl
command_at-code Commands.le_read_local_supported_features = refl
command_at-code Commands.le_rand = refl
command_at-code Commands.le_set_random_addr = refl
command_at-code Commands.le_set_adv_enable = refl
command_at-code Commands.le_set_addr_resolution_enable = refl
command_at-code Commands.le_clear_resolving_list = refl
command_at-code Commands.le_add_device_to_resolving_list = refl
command_at-code Commands.le_remove_device_from_resolving_list = refl
command_at-code Commands.le_set_privacy_mode = refl
command_at-code Commands.le_set_resolvable_private_addr_timeout = refl
command_at-code Commands.disconnect = refl
command_at-code Commands.le_read_remote_features = refl
command_at-code Commands.read_remote_version_information = refl
command_at-code Commands.le_set_data_length = refl
command_at-code Commands.le_read_suggested_default_data_length = refl
command_at-code Commands.le_write_suggested_default_data_length = refl
command_at-code Commands.le_read_channel_map = refl
command_at-code Commands.read_rssi = refl
command_at-code Commands.le_add_device_to_filter_accept_list = refl
command_at-code Commands.le_remove_device_from_filter_accept_list = refl
command_at-code Commands.le_clear_filter_accept_list = refl
command_at-code Commands.le_read_filter_accept_list_size = refl
command_at-code Commands.le_set_adv_params = refl
command_at-code Commands.le_set_adv_data = refl
command_at-code Commands.le_set_scan_response_data = refl
command_at-code Commands.le_read_adv_physical_channel_tx_power = refl
command_at-code Commands.le_set_scan_params = refl
command_at-code Commands.le_set_scan_enable = refl
command_at-code Commands.le_create_conn = refl
command_at-code Commands.le_create_conn_cancel = refl
command_at-code Commands.le_conn_update = refl
command_at-code Commands.le_set_host_channel_classification = refl
command_at-code Commands.le_enable_encryption = refl
command_at-code Commands.le_long_term_key_request_reply = refl
command_at-code Commands.le_long_term_key_request_negative_reply = refl

-- A controller that notes the number of its commands and returns two bytes, and a host that keeps
-- its events. The code of a command is its place in the list of commands.
abbrev recording : Parties ℕ Packet (List Packet)
recording = record {
  opcode_of = code;
  from_hci_bytes = λ c p. some p;
  exec = λ c p ctl. (done (1 ∷ 2 ∷ []), ctl + 1);
  ble_transport_alloc_evt = λ d h. some h;
  ble_transport_to_hs_evt_impl = λ ev h. h ++ ev ∷ [];
}

recording_fits : Fits recording
recording_fits c p ctl ret h = ground arith

recording_codes : HasCodes recording
recording_codes c d e =
    sym (command_at-code c) ∙ ap (λ n. command_at n all_commands) e ∙ command_at-code d

send_cmd-IsAcked_example :
    IsAcked recording 0 [] (send_cmd recording central_only (0 ∷ 0 ∷ 0 ∷ []) (7, []))
send_cmd-IsAcked_example = send_cmd-IsAcked recording recording_fits central_only 0 0 (0 ∷ []) 7 []

send_cmd-executed_example :
    send_cmd recording central_only (code Commands.le_read_remote_features ∷ 0 ∷ 1 ∷ 5 ∷ []) (7, [])
    ≡ executed recording status_first Commands.le_read_remote_features
        (code Commands.le_read_remote_features)
        (some (5 ∷ []))
        (7, [])
send_cmd-executed_example =
    send_cmd-executed recording recording_codes recording_fits central_only
      Commands.le_read_remote_features (code Commands.le_read_remote_features) 0 1 (5 ∷ []) (7, [])
      (later (
        later (
          later (
            later (
              later (
                later (
                  later (
                    later (
                      later (
                        later (
                          later (
                            later (
                              later (
                                later
                                  (later (later (later (later (later (later here))))))))))))))))))))
      refl (λ e. absurd (cc))

far_code : (c : Command) → code c < 44
far_code Commands.reset = omega arith
far_code Commands.set_event_mask = omega arith
far_code Commands.set_event_mask_page2 = omega arith
far_code Commands.le_set_event_mask = omega arith
far_code Commands.read_local_version_information = omega arith
far_code Commands.read_local_supported_cmds = omega arith
far_code Commands.read_local_supported_features = omega arith
far_code Commands.read_bd_addr = omega arith
far_code Commands.le_read_buffer_size = omega arith
far_code Commands.le_read_local_supported_features = omega arith
far_code Commands.le_rand = omega arith
far_code Commands.le_set_random_addr = omega arith
far_code Commands.le_set_adv_enable = omega arith
far_code Commands.le_set_addr_resolution_enable = omega arith
far_code Commands.le_clear_resolving_list = omega arith
far_code Commands.le_add_device_to_resolving_list = omega arith
far_code Commands.le_remove_device_from_resolving_list = omega arith
far_code Commands.le_set_privacy_mode = omega arith
far_code Commands.le_set_resolvable_private_addr_timeout = omega arith
far_code Commands.disconnect = omega arith
far_code Commands.le_read_remote_features = omega arith
far_code Commands.read_remote_version_information = omega arith
far_code Commands.le_set_data_length = omega arith
far_code Commands.le_read_suggested_default_data_length = omega arith
far_code Commands.le_write_suggested_default_data_length = omega arith
far_code Commands.le_read_channel_map = omega arith
far_code Commands.read_rssi = omega arith
far_code Commands.le_add_device_to_filter_accept_list = omega arith
far_code Commands.le_remove_device_from_filter_accept_list = omega arith
far_code Commands.le_clear_filter_accept_list = omega arith
far_code Commands.le_read_filter_accept_list_size = omega arith
far_code Commands.le_set_adv_params = omega arith
far_code Commands.le_set_adv_data = omega arith
far_code Commands.le_set_scan_response_data = omega arith
far_code Commands.le_read_adv_physical_channel_tx_power = omega arith
far_code Commands.le_set_scan_params = omega arith
far_code Commands.le_set_scan_enable = omega arith
far_code Commands.le_create_conn = omega arith
far_code Commands.le_create_conn_cancel = omega arith
far_code Commands.le_conn_update = omega arith
far_code Commands.le_set_host_channel_classification = omega arith
far_code Commands.le_enable_encryption = omega arith
far_code Commands.le_long_term_key_request_reply = omega arith
far_code Commands.le_long_term_key_request_negative_reply = omega arith

send_cmd-unknown_example :
    send_cmd recording central_only (44 ∷ 1 ∷ []) (7, [])
    ≡ some (7, take_event recording (complete_event 300 status_unknown_cmd []) [])
send_cmd-unknown_example =
    send_cmd-unknown recording central_only 44 1 [] 7 []
      (λ c m e. absurd (omega (arith, e, far_code c)))

send_cmd-event_mask_example :
    (n : ℕ) × ((b : ℕ) → b < 8 → bit_at n b ≡ (bit_at 255 b && not (b == 5)))
    × (send_cmd recording central_only (3 ∷ 0 ∷ 8 ∷ 255 ∷ 1 ∷ 2 ∷ 3 ∷ 4 ∷ 5 ∷ 6 ∷ 7 ∷ []) (7, [])
        ≡ sync_cmd recording Commands.le_set_event_mask 3
            (n ∷ 1 ∷ 2 ∷ 3 ∷ 4 ∷ 5 ∷ 6 ∷ 7 ∷ [])
            (7, []))
send_cmd-event_mask_example =
    send_cmd-event_mask recording recording_codes central_only 3 0 8 255
      (1 ∷ 2 ∷ 3 ∷ 4 ∷ 5 ∷ 6 ∷ 7 ∷ []) [] 7 [] (omega arith) refl refl

-- Mbuf 10 and mbuf 20 behind it.
abbrev chained : CMemory
chained = record {
  mbufs = λ p. record {
    om_data = if p == 10 then 1 ∷ 2 ∷ [] else 3 ∷ [];
    om_next = if p == 10 then 20 else 0;
  };
  buffers = λ p. [];
  freed = [];
}

abbrev none_queued : Queues
none_queued = record { cmd_queue = []; acl_queue = [] }

to_ll_acl-bytes_example :
    ble_transport_to_ll_acl_impl 7 1 27 4 3 10 none_queued chained
    ≡ some (0, record { cmd_queue = []; acl_queue = (1 ∷ 2 ∷ 3 ∷ []) ∷ [] }, give_back 10 chained)
to_ll_acl-bytes_example =
    to_ll_acl-bytes 7 1 27 4 3 10 none_queued chained (10 ∷ 20 ∷ [])
      (refl, ground arith, (refl, ground arith, refl)) (omega arith)

abbrev counting : AclController ℕ Packet
counting = record {
  from_hci_bytes_complete = λ raw. some raw;
  write_acl_data = λ raw ctl. (true, ctl + 100);
}

run_tx-drained_example :
    run_tx recording counting central_only 3
      (record { cmd_queue = (44 ∷ 1 ∷ []) ∷ []; acl_queue = (1 ∷ []) ∷ [] }, (7, []))
    ≡ (send_all recording counting central_only ((44 ∷ 1 ∷ []) ∷ []) (7, []) >>= (λ v.
        some (none_queued, (write_all recording counting central_only ((1 ∷ []) ∷ []) v.0, v.1))))
run_tx-drained_example =
    run_tx-drained recording counting central_only 3 ((44 ∷ 1 ∷ []) ∷ []) ((1 ∷ []) ∷ []) (7, [])
      (omega arith)

-- A registered pump at rest.
abbrev at_rest : PumpSlot × Polls
at_rest = (record { fut = some 1; busy = false }, record { running = 0; most = 0 })

pump_manual-exclusive_example :
    IsIdle (call_all (pump_manual (nested_poll 2 (3 ∷ 4 ∷ []))) (5 ∷ 6 ∷ []) at_rest)
pump_manual-exclusive_example =
    pump_manual-exclusive 2 (3 ∷ 4 ∷ []) (5 ∷ 6 ∷ []) at_rest (refl, refl, omega arith)

-- Reset, in the buffer 30.
abbrev with_reset : CMemory
with_reset = record { mbufs = chained.mbufs; buffers = λ p. 0 ∷ 0 ∷ 1 ∷ 9 ∷ 55 ∷ []; freed = [] }

command-IsAcked_example :
    (qs : Queues) × (qs.cmd_queue ≡ (0 ∷ 0 ∷ 1 ∷ 9 ∷ []) ∷ [])
    × (ble_transport_to_ll_cmd_impl 7 1 27 4 30 no_packets with_reset
        ≡ some (0, qs, give_back 30 with_reset))
    × IsAcked recording 0 []
        (parties_after (run_tx recording counting central_only 2 (qs, (7, []))))
command-IsAcked_example =
    command-IsAcked 7 1 27 4 recording counting central_only recording_fits 30 0 0 1 (9 ∷ [])
      (55 ∷ []) with_reset 7 [] refl refl (omega arith)
