-- ===== src/Example/Dispatch/Commands.antt =====
-- The commands that net-core/src/cmd_dispatch.rs lists.
use icmsg_rs.Prelude.{List, [], ◌∷◌}

-- The types that `exec_cmd_by_opcode` lists.
pub data Command : Type 0 where
  disconnect read_remote_version_information reset set_event_mask : Command
  read_transmit_power_level set_controller_to_host_flow_control host_buffer_size : Command
  set_event_mask_page2 read_authenticated_payload_timeout : Command
  write_authenticated_payload_timeout host_number_of_completed_packets : Command
  read_local_version_information read_local_supported_cmds read_local_supported_features : Command
  read_bd_addr read_rssi le_set_adv_params le_read_adv_physical_channel_tx_power : Command
  le_set_adv_data le_set_scan_response_data le_set_adv_enable le_set_scan_params : Command
  le_set_scan_enable le_create_conn le_set_ext_adv_params le_set_ext_adv_params_v2 : Command
  le_read_max_adv_data_length le_read_number_of_supported_adv_sets le_remove_adv_set : Command
  le_clear_adv_sets le_set_periodic_adv_params le_set_periodic_adv_params_v2 : Command
  le_set_periodic_adv_enable le_set_ext_scan_enable le_periodic_adv_create_sync : Command
  le_periodic_adv_create_sync_cancel le_periodic_adv_terminate_sync : Command
  le_add_device_to_periodic_adv_list le_remove_device_from_periodic_adv_list : Command
  le_clear_periodic_adv_list le_read_periodic_adv_list_size : Command
  le_set_periodic_adv_sync_transfer_params : Command
  le_set_default_periodic_adv_sync_transfer_params le_set_event_mask le_read_buffer_size : Command
  le_read_local_supported_features le_set_random_addr le_create_conn_cancel : Command
  le_read_filter_accept_list_size le_clear_filter_accept_list : Command
  le_add_device_to_filter_accept_list le_remove_device_from_filter_accept_list : Command
  le_conn_update le_set_host_channel_classification le_read_channel_map : Command
  le_read_remote_features le_encrypt le_rand le_enable_encryption : Command
  le_long_term_key_request_reply le_long_term_key_request_negative_reply : Command
  le_read_supported_states le_set_data_length le_read_suggested_default_data_length : Command
  le_write_suggested_default_data_length le_add_device_to_resolving_list : Command
  le_remove_device_from_resolving_list le_clear_resolving_list le_read_resolving_list_size : Command
  le_set_addr_resolution_enable le_set_resolvable_private_addr_timeout : Command
  le_read_max_data_length le_read_phy le_set_default_phy le_set_phy : Command
  le_set_adv_set_random_addr le_read_transmit_power le_read_rf_path_compensation : Command
  le_write_rf_path_compensation le_set_privacy_mode : Command
  le_set_connectionless_cte_transmit_enable le_conn_cte_response_enable : Command
  le_read_antenna_information le_set_periodic_adv_receive_enable : Command
  le_periodic_adv_sync_transfer le_periodic_adv_set_info_transfer le_request_peer_sca : Command
  le_enhanced_read_transmit_power_level le_read_remote_transmit_power_level : Command
  le_set_path_loss_reporting_params le_set_path_loss_reporting_enable : Command
  le_set_transmit_power_reporting_enable le_set_data_related_addr_changes : Command
  le_set_host_feature le_set_host_feature_v2 zephyr_read_version_info : Command
  zephyr_read_supported_commands zephyr_write_bd_addr zephyr_read_key_hierarchy_roots : Command
  zephyr_read_chip_temp zephyr_write_tx_power zephyr_read_tx_power nordic_llpm_mode_set : Command
  nordic_conn_update nordic_conn_event_extend nordic_qos_conn_event_report_enable : Command
  nordic_event_length_set nordic_periodic_adv_event_length_set : Command
  nordic_peripheral_latency_mode_set nordic_write_remote_tx_power : Command
  nordic_set_adv_randomness nordic_compat_mode_window_offset_set : Command
  nordic_qos_channel_survey_enable nordic_set_power_control_request_params : Command
  nordic_read_average_rssi nordic_central_acl_event_spacing_set : Command
  nordic_get_next_conn_event_counter nordic_allow_parallel_connection_establishments : Command
  nordic_min_val_of_max_acl_tx_payload_set nordic_iso_read_tx_timestamp : Command
  nordic_big_reserved_time_set nordic_cig_reserved_time_set nordic_cis_subevent_length_set : Command
  nordic_scan_channel_map_set nordic_scan_accept_ext_adv_packets_set : Command
  nordic_set_role_priority nordic_set_event_start_task : Command
  nordic_conn_anchor_point_update_event_report_enable zephyr_read_static_addrs : Command

pub data Arm : Type 0 where
  synchronous asynchronous : Arm

-- The list of `exec_cmd_by_opcode`.
abbrev pub commands : List (Command × Arm)
commands =
    (disconnect, synchronous)
    ∷ (read_remote_version_information, asynchronous)
    ∷ (reset, synchronous)
    ∷ (set_event_mask, synchronous)
    ∷ (read_transmit_power_level, synchronous)
    ∷ (set_controller_to_host_flow_control, synchronous)
    ∷ (host_buffer_size, synchronous)
    ∷ (set_event_mask_page2, synchronous)
    ∷ (read_authenticated_payload_timeout, synchronous)
    ∷ (write_authenticated_payload_timeout, synchronous)
    ∷ (host_number_of_completed_packets, synchronous)
    ∷ (read_local_version_information, synchronous)
    ∷ (read_local_supported_cmds, synchronous)
    ∷ (read_local_supported_features, synchronous)
    ∷ (read_bd_addr, synchronous)
    ∷ (read_rssi, synchronous)
    ∷ (le_set_adv_params, synchronous)
    ∷ (le_read_adv_physical_channel_tx_power, synchronous)
    ∷ (le_set_adv_data, synchronous)
    ∷ (le_set_scan_response_data, synchronous)
    ∷ (le_set_adv_enable, synchronous)
    ∷ (le_set_scan_params, synchronous)
    ∷ (le_set_scan_enable, synchronous)
    ∷ (le_create_conn, asynchronous)
    ∷ (le_set_ext_adv_params, synchronous)
    ∷ (le_set_ext_adv_params_v2, synchronous)
    ∷ (le_read_max_adv_data_length, synchronous)
    ∷ (le_read_number_of_supported_adv_sets, synchronous)
    ∷ (le_remove_adv_set, synchronous)
    ∷ (le_clear_adv_sets, synchronous)
    ∷ (le_set_periodic_adv_params, synchronous)
    ∷ (le_set_periodic_adv_params_v2, synchronous)
    ∷ (le_set_periodic_adv_enable, synchronous)
    ∷ (le_set_ext_scan_enable, synchronous)
    ∷ (le_periodic_adv_create_sync, asynchronous)
    ∷ (le_periodic_adv_create_sync_cancel, synchronous)
    ∷ (le_periodic_adv_terminate_sync, synchronous)
    ∷ (le_add_device_to_periodic_adv_list, synchronous)
    ∷ (le_remove_device_from_periodic_adv_list, synchronous)
    ∷ (le_clear_periodic_adv_list, synchronous)
    ∷ (le_read_periodic_adv_list_size, synchronous)
    ∷ (le_set_periodic_adv_sync_transfer_params, synchronous)
    ∷ (le_set_default_periodic_adv_sync_transfer_params, synchronous)
    ∷ (le_set_event_mask, synchronous)
    ∷ (le_read_buffer_size, synchronous)
    ∷ (le_read_local_supported_features, synchronous)
    ∷ (le_set_random_addr, synchronous)
    ∷ (le_create_conn_cancel, synchronous)
    ∷ (le_read_filter_accept_list_size, synchronous)
    ∷ (le_clear_filter_accept_list, synchronous)
    ∷ (le_add_device_to_filter_accept_list, synchronous)
    ∷ (le_remove_device_from_filter_accept_list, synchronous)
    ∷ (le_conn_update, asynchronous)
    ∷ (le_set_host_channel_classification, synchronous)
    ∷ (le_read_channel_map, synchronous)
    ∷ (le_read_remote_features, asynchronous)
    ∷ (le_encrypt, synchronous)
    ∷ (le_rand, synchronous)
    ∷ (le_enable_encryption, asynchronous)
    ∷ (le_long_term_key_request_reply, synchronous)
    ∷ (le_long_term_key_request_negative_reply, synchronous)
    ∷ (le_read_supported_states, synchronous)
    ∷ (le_set_data_length, synchronous)
    ∷ (le_read_suggested_default_data_length, synchronous)
    ∷ (le_write_suggested_default_data_length, synchronous)
    ∷ (le_add_device_to_resolving_list, synchronous)
    ∷ (le_remove_device_from_resolving_list, synchronous)
    ∷ (le_clear_resolving_list, synchronous)
    ∷ (le_read_resolving_list_size, synchronous)
    ∷ (le_set_addr_resolution_enable, synchronous)
    ∷ (le_set_resolvable_private_addr_timeout, synchronous)
    ∷ (le_read_max_data_length, synchronous)
    ∷ (le_read_phy, synchronous)
    ∷ (le_set_default_phy, synchronous)
    ∷ (le_set_phy, asynchronous)
    ∷ (le_set_adv_set_random_addr, synchronous)
    ∷ (le_read_transmit_power, synchronous)
    ∷ (le_read_rf_path_compensation, synchronous)
    ∷ (le_write_rf_path_compensation, synchronous)
    ∷ (le_set_privacy_mode, synchronous)
    ∷ (le_set_connectionless_cte_transmit_enable, synchronous)
    ∷ (le_conn_cte_response_enable, synchronous)
    ∷ (le_read_antenna_information, synchronous)
    ∷ (le_set_periodic_adv_receive_enable, synchronous)
    ∷ (le_periodic_adv_sync_transfer, synchronous)
    ∷ (le_periodic_adv_set_info_transfer, synchronous)
    ∷ (le_request_peer_sca, asynchronous)
    ∷ (le_enhanced_read_transmit_power_level, synchronous)
    ∷ (le_read_remote_transmit_power_level, asynchronous)
    ∷ (le_set_path_loss_reporting_params, synchronous)
    ∷ (le_set_path_loss_reporting_enable, synchronous)
    ∷ (le_set_transmit_power_reporting_enable, synchronous)
    ∷ (le_set_data_related_addr_changes, synchronous)
    ∷ (le_set_host_feature, synchronous)
    ∷ (le_set_host_feature_v2, synchronous)
    ∷ (zephyr_read_version_info, synchronous)
    ∷ (zephyr_read_supported_commands, synchronous)
    ∷ (zephyr_write_bd_addr, synchronous)
    ∷ (zephyr_read_key_hierarchy_roots, synchronous)
    ∷ (zephyr_read_chip_temp, synchronous)
    ∷ (zephyr_write_tx_power, synchronous)
    ∷ (zephyr_read_tx_power, synchronous)
    ∷ (nordic_llpm_mode_set, synchronous)
    ∷ (nordic_conn_update, synchronous)
    ∷ (nordic_conn_event_extend, synchronous)
    ∷ (nordic_qos_conn_event_report_enable, synchronous)
    ∷ (nordic_event_length_set, synchronous)
    ∷ (nordic_periodic_adv_event_length_set, synchronous)
    ∷ (nordic_peripheral_latency_mode_set, synchronous)
    ∷ (nordic_write_remote_tx_power, synchronous)
    ∷ (nordic_set_adv_randomness, synchronous)
    ∷ (nordic_compat_mode_window_offset_set, synchronous)
    ∷ (nordic_qos_channel_survey_enable, synchronous)
    ∷ (nordic_set_power_control_request_params, synchronous)
    ∷ (nordic_read_average_rssi, synchronous)
    ∷ (nordic_central_acl_event_spacing_set, synchronous)
    ∷ (nordic_get_next_conn_event_counter, synchronous)
    ∷ (nordic_allow_parallel_connection_establishments, synchronous)
    ∷ (nordic_min_val_of_max_acl_tx_payload_set, synchronous)
    ∷ (nordic_iso_read_tx_timestamp, synchronous)
    ∷ (nordic_big_reserved_time_set, synchronous)
    ∷ (nordic_cig_reserved_time_set, synchronous)
    ∷ (nordic_cis_subevent_length_set, synchronous)
    ∷ (nordic_scan_channel_map_set, synchronous)
    ∷ (nordic_scan_accept_ext_adv_packets_set, synchronous)
    ∷ (nordic_set_role_priority, synchronous)
    ∷ (nordic_set_event_start_task, synchronous)
    ∷ (nordic_conn_anchor_point_update_event_report_enable, synchronous)
    ∷ (zephyr_read_static_addrs, synchronous)
    ∷ []
