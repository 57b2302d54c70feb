-- ===== src/Hci/Commands.antt =====
-- The commands that nimble-rs/src/hci.rs dispatches, by the traits of its controller contract
-- (`CoreCmds`, `ConnCmds`, `AdvCmds`, `ScanCmds`, `CentralCmds`, `SmCmds`) and in the order of
-- `send_cmd`. The codes of the commands are bt-hci's, and so parameters elsewhere.
use nimble_rs.Base.{Bool, true, false, ◌||◌, if◌then◌else◌, List, [], ◌∷◌, ◌++◌}

pub data Command : Type 0 where
  reset set_event_mask set_event_mask_page2 le_set_event_mask read_local_version_information
        read_local_supported_cmds read_local_supported_features read_bd_addr le_read_buffer_size
        le_read_local_supported_features le_rand le_set_random_addr le_set_adv_enable
        le_set_addr_resolution_enable le_clear_resolving_list le_add_device_to_resolving_list
        le_remove_device_from_resolving_list le_set_privacy_mode
        le_set_resolvable_private_addr_timeout disconnect le_read_remote_features
        read_remote_version_information le_set_data_length le_read_suggested_default_data_length
        le_write_suggested_default_data_length le_read_channel_map read_rssi
        le_add_device_to_filter_accept_list le_remove_device_from_filter_accept_list
        le_clear_filter_accept_list le_read_filter_accept_list_size le_set_adv_params
        le_set_adv_data le_set_scan_response_data le_read_adv_physical_channel_tx_power
        le_set_scan_params le_set_scan_enable le_create_conn le_create_conn_cancel le_conn_update
        le_set_host_channel_classification le_enable_encryption le_long_term_key_request_reply
        le_long_term_key_request_negative_reply :
      Command

-- The Cargo features that the dispatcher looks at.
pub record Features : Type 0 where
  pub central : Bool
  pub peripheral : Bool
  pub broadcaster : Bool
  pub observer : Bool
  pub sm : Bool
  pub sm_sc_only : Bool

-- `CoreCmds`, and `Read Local Supported Commands`, which the dispatcher answers itself.
abbrev pub core_cmds : List Command
core_cmds =
    reset ∷ set_event_mask ∷ set_event_mask_page2 ∷ le_set_event_mask
    ∷ read_local_version_information ∷ read_local_supported_cmds ∷ read_local_supported_features
    ∷ read_bd_addr ∷ le_read_buffer_size ∷ le_read_local_supported_features ∷ le_rand
    ∷ le_set_random_addr ∷ le_set_adv_enable ∷ le_set_addr_resolution_enable
    ∷ le_clear_resolving_list ∷ le_add_device_to_resolving_list
    ∷ le_remove_device_from_resolving_list ∷ le_set_privacy_mode
    ∷ le_set_resolvable_private_addr_timeout ∷ []

-- `ConnCmds`
abbrev pub conn_cmds : List Command
conn_cmds =
    disconnect ∷ le_read_remote_features ∷ read_remote_version_information ∷ le_set_data_length
    ∷ le_read_suggested_default_data_length ∷ le_write_suggested_default_data_length
    ∷ le_read_channel_map ∷ read_rssi ∷ le_add_device_to_filter_accept_list
    ∷ le_remove_device_from_filter_accept_list ∷ le_clear_filter_accept_list
    ∷ le_read_filter_accept_list_size ∷ []

-- `AdvCmds`
abbrev pub adv_cmds : List Command
adv_cmds =
    le_set_adv_params ∷ le_set_adv_data ∷ le_set_scan_response_data
    ∷ le_read_adv_physical_channel_tx_power ∷ []

-- `ScanCmds`
abbrev pub scan_cmds : List Command
scan_cmds = le_set_scan_params ∷ le_set_scan_enable ∷ []

-- `CentralCmds`
abbrev pub central_cmds : List Command
central_cmds =
    le_create_conn ∷ le_create_conn_cancel ∷ le_conn_update ∷ le_set_host_channel_classification
    ∷ []

-- `SmCmds`
abbrev pub sm_cmds : List Command
sm_cmds =
    le_enable_encryption ∷ le_long_term_key_request_reply ∷ le_long_term_key_request_negative_reply
    ∷ []

-- The commands that `send_cmd` compares a packet's code with, in its order.
abbrev pub dispatched : Features → List Command
dispatched f =
    core_cmds
    ++ (if f.central || f.peripheral then conn_cmds else [])
    ++ (if f.broadcaster then adv_cmds else [])
    ++ (if f.observer then scan_cmds else [])
    ++ (if f.central then central_cmds else [])
    ++ (if f.sm || f.sm_sc_only then sm_cmds else [])

-- Whether `send_cmd` runs the command by `nb!`, and acknowledges it by a Command Status.
abbrev pub is_async : Command → Bool
is_async le_conn_update = true
is_async le_create_conn = true
is_async le_enable_encryption = true
is_async le_read_remote_features = true
is_async read_remote_version_information = true
is_async _ = false
