-- ===== src/UcxApi/Commands/Bluetooth.antt =====
-- The functions of ucx_api/generated/u_cx_bluetooth.c with these names.
use ucxclient.Prelude.{Bytes, codes, [], ◌∷◌}
use ucxclient.Prelude.Int.{ℤ}
use ucxclient.AtParams.Addresses.{BtLeAddress}
use ucxclient.AtClient.Send.{digit, string, bd_address}
use ucxclient.UcxApi.Call.{
  ApiCall, OpenCall, exec_cmd, get_values, begin_values, begin_cmd, next_values,
}

unfoldable bluetooth_set_mode : ℤ → ApiCall
bluetooth_set_mode mode = exec_cmd (codes "AT+UBTM=") (digit mode ∷ [])

unfoldable bluetooth_get_mode : ApiCall
bluetooth_get_mode = get_values (codes "AT+UBTM?") [] (codes "+UBTM:") (codes "d")

unfoldable bluetooth_connect : BtLeAddress → ApiCall
bluetooth_connect bd_addr = exec_cmd (codes "AT+UBTC=") (bd_address bd_addr ∷ [])

unfoldable bluetooth_disconnect : ℤ → ApiCall
bluetooth_disconnect conn_handle = exec_cmd (codes "AT+UBTDC=") (digit conn_handle ∷ [])

unfoldable bluetooth_get_local_name_begin : OpenCall
bluetooth_get_local_name_begin = begin_values (codes "AT+UBTLN?") [] (codes "+UBTLN:") (codes "s")

unfoldable bluetooth_set_local_name : Bytes → ApiCall
bluetooth_set_local_name device_name = exec_cmd (codes "AT+UBTLN=") (string device_name ∷ [])

unfoldable bluetooth_discovery_default_begin : OpenCall
bluetooth_discovery_default_begin = begin_cmd (codes "AT+UBTD") []

unfoldable bluetooth_discovery_default_get_next : OpenCall
bluetooth_discovery_default_get_next = next_values (codes "+UBTD:") (codes "bdsdh")

unfoldable bluetooth_discovery1_begin : ℤ → OpenCall
bluetooth_discovery1_begin discovery_type = begin_cmd (codes "AT+UBTD=") (digit discovery_type ∷ [])

unfoldable bluetooth_discovery1_get_next : OpenCall
bluetooth_discovery1_get_next = next_values (codes "+UBTD:") (codes "bdsdh")

unfoldable bluetooth_discovery2_begin : ℤ → ℤ → OpenCall
bluetooth_discovery2_begin discovery_type discovery_mode =
    begin_cmd (codes "AT+UBTD=") (digit discovery_type ∷ digit discovery_mode ∷ [])

unfoldable bluetooth_discovery2_get_next : OpenCall
bluetooth_discovery2_get_next = next_values (codes "+UBTD:") (codes "bdsdh")

unfoldable bluetooth_discovery3_begin : ℤ → ℤ → ℤ → OpenCall
bluetooth_discovery3_begin discovery_type discovery_mode discovery_length =
    begin_cmd (codes "AT+UBTD=")
      (digit discovery_type ∷ digit discovery_mode ∷ digit discovery_length ∷ [])

unfoldable bluetooth_discovery3_get_next : OpenCall
bluetooth_discovery3_get_next = next_values (codes "+UBTD:") (codes "bdsdh")

unfoldable bluetooth_bg_discovery_default_start : ApiCall
bluetooth_bg_discovery_default_start = exec_cmd (codes "AT+UBTBGD") []

unfoldable bluetooth_bg_discovery_start1 : ℤ → ApiCall
bluetooth_bg_discovery_start1 discovery_type =
    exec_cmd (codes "AT+UBTBGD=") (digit discovery_type ∷ [])

unfoldable bluetooth_bg_discovery_start2 : ℤ → ℤ → ApiCall
bluetooth_bg_discovery_start2 discovery_type discovery_mode =
    exec_cmd (codes "AT+UBTBGD=") (digit discovery_type ∷ digit discovery_mode ∷ [])

unfoldable bluetooth_bg_discovery_start3 : ℤ → ℤ → ℤ → ApiCall
bluetooth_bg_discovery_start3 discovery_type discovery_mode output_events =
    exec_cmd (codes "AT+UBTBGD=")
      (digit discovery_type ∷ digit discovery_mode ∷ digit output_events ∷ [])

unfoldable bluetooth_bg_discovery_stop : ApiCall
bluetooth_bg_discovery_stop = exec_cmd (codes "AT+UBTBGDS") []

unfoldable bluetooth_get_rssi : ℤ → ApiCall
bluetooth_get_rssi conn_handle =
    get_values (codes "AT+UBTRSS=") (digit conn_handle ∷ []) (codes "+UBTRSS:") (codes "d")

unfoldable bluetooth_list_connections_begin : OpenCall
bluetooth_list_connections_begin = begin_cmd (codes "AT+UBTCL") []

unfoldable bluetooth_list_connections_get_next : OpenCall
bluetooth_list_connections_get_next = next_values (codes "+UBTCL:") (codes "db")

unfoldable bluetooth_list_connection_status_begin : ℤ → OpenCall
bluetooth_list_connection_status_begin conn_handle =
    begin_cmd (codes "AT+UBTCST=") (digit conn_handle ∷ [])

unfoldable bluetooth_list_connection_status_get_next : OpenCall
bluetooth_list_connection_status_get_next = next_values (codes "+UBTCST:") (codes "dd")

unfoldable bluetooth_get_connection_status : ℤ → ℤ → ApiCall
bluetooth_get_connection_status conn_handle prop_id =
    get_values (codes "AT+UBTCST=") (digit conn_handle ∷ digit prop_id ∷ []) (codes "+UBTCST:")
      (codes "-d")

unfoldable bluetooth_set_connection_interval_min : ℤ → ApiCall
bluetooth_set_connection_interval_min connection_interval_minimum =
    exec_cmd (codes "AT+UBTCS0=") (digit connection_interval_minimum ∷ [])

unfoldable bluetooth_get_connection_interval_min : ApiCall
bluetooth_get_connection_interval_min =
    get_values (codes "AT+UBTCS0?") [] (codes "+UBTCS0:") (codes "d")

unfoldable bluetooth_set_connection_interval_max : ℤ → ApiCall
bluetooth_set_connection_interval_max connection_interval_maximum =
    exec_cmd (codes "AT+UBTCS1=") (digit connection_interval_maximum ∷ [])

unfoldable bluetooth_get_connection_interval_max : ApiCall
bluetooth_get_connection_interval_max =
    get_values (codes "AT+UBTCS1?") [] (codes "+UBTCS1:") (codes "d")

unfoldable bluetooth_set_connection_peripheral_latency : ℤ → ApiCall
bluetooth_set_connection_peripheral_latency connection_peripheral_latency =
    exec_cmd (codes "AT+UBTCS2=") (digit connection_peripheral_latency ∷ [])

unfoldable bluetooth_get_connection_peripheral_latency : ApiCall
bluetooth_get_connection_peripheral_latency =
    get_values (codes "AT+UBTCS2?") [] (codes "+UBTCS2:") (codes "d")

unfoldable bluetooth_set_connection_linkloss_timeout : ℤ → ApiCall
bluetooth_set_connection_linkloss_timeout connection_linkloss_timeout =
    exec_cmd (codes "AT+UBTCS3=") (digit connection_linkloss_timeout ∷ [])

unfoldable bluetooth_get_connection_linkloss_timeout : ApiCall
bluetooth_get_connection_linkloss_timeout =
    get_values (codes "AT+UBTCS3?") [] (codes "+UBTCS3:") (codes "d")

unfoldable bluetooth_set_preferred_tx_phy : ℤ → ApiCall
bluetooth_set_preferred_tx_phy preferred_tx_phy =
    exec_cmd (codes "AT+UBTCS4=") (digit preferred_tx_phy ∷ [])

unfoldable bluetooth_get_preferred_tx_phy : ApiCall
bluetooth_get_preferred_tx_phy = get_values (codes "AT+UBTCS4?") [] (codes "+UBTCS4:") (codes "d")

unfoldable bluetooth_set_preferred_rx_phy : ℤ → ApiCall
bluetooth_set_preferred_rx_phy preferred_rx_phy =
    exec_cmd (codes "AT+UBTCS5=") (digit preferred_rx_phy ∷ [])

unfoldable bluetooth_get_preferred_rx_phy : ApiCall
bluetooth_get_preferred_rx_phy = get_values (codes "AT+UBTCS5?") [] (codes "+UBTCS5:") (codes "d")

unfoldable bluetooth_set_connect_to_directed_adv : ℤ → ApiCall
bluetooth_set_connect_to_directed_adv connect_to_directed_adv =
    exec_cmd (codes "AT+UBTSS2=") (digit connect_to_directed_adv ∷ [])

unfoldable bluetooth_get_connect_to_directed_adv : ApiCall
bluetooth_get_connect_to_directed_adv =
    get_values (codes "AT+UBTSS2?") [] (codes "+UBTSS2:") (codes "d")

unfoldable bluetooth_unbond : BtLeAddress → ApiCall
bluetooth_unbond bd_addr = exec_cmd (codes "AT+UBTUB=") (bd_address bd_addr ∷ [])

unfoldable bluetooth_unbond_all : ApiCall
bluetooth_unbond_all = exec_cmd (codes "AT+UBTUB") []

unfoldable bluetooth_set_device_info_service_char : ℤ → Bytes → ApiCall
bluetooth_set_device_info_service_char char_id char_value =
    exec_cmd (codes "AT+UBTDIS=") (digit char_id ∷ string char_value ∷ [])

unfoldable bluetooth_get_device_info_service_char_begin : ℤ → OpenCall
bluetooth_get_device_info_service_char_begin char_id =
    begin_values (codes "AT+UBTDIS=") (digit char_id ∷ []) (codes "+UBTDIS:") (codes "-s")

unfoldable bluetooth_list_device_info_service_chars_begin : OpenCall
bluetooth_list_device_info_service_chars_begin = begin_cmd (codes "AT+UBTDIS?") []

unfoldable bluetooth_list_device_info_service_chars_get_next : OpenCall
bluetooth_list_device_info_service_chars_get_next = next_values (codes "+UBTDIS:") (codes "ds")

unfoldable bluetooth_request_phy : ℤ → ℤ → ℤ → ApiCall
bluetooth_request_phy conn_handle tx_phy rx_phy =
    exec_cmd (codes "AT+UBTPHYR=") (digit conn_handle ∷ digit tx_phy ∷ digit rx_phy ∷ [])

unfoldable bluetooth_get_phy : ℤ → ApiCall
bluetooth_get_phy conn_handle =
    get_values (codes "AT+UBTPHYR=") (digit conn_handle ∷ []) (codes "+UBTPHYR:") (codes "-dd")
