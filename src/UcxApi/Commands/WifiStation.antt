-- ===== src/UcxApi/Commands/WifiStation.antt =====
-- The functions of ucx_api/generated/u_cx_wifi.c with these names.
use ucxclient.Prelude.{Bytes, codes, [], ◌∷◌}
use ucxclient.Prelude.Int.{ℤ, pos, negsuc}
use ucxclient.AtParams.Ip.{IpAddress}
use ucxclient.AtClient.Send.{digit, string, ip_address}
use ucxclient.UcxApi.Call.{
  ApiCall, OpenCall, exec_cmd, get_values, begin_values, begin_cmd, next_values,
}
use ucxclient.UcxApi.Variant.{begin_variant, get_variant}

unfoldable wifi_station_set_security_enterprise5 : ℤ → ℤ → Bytes → Bytes → Bytes → ApiCall
wifi_station_set_security_enterprise5 wlan_handle tls_version ca_name client_cert_name
      client_key_name =
    exec_cmd (codes "AT+UWSSE=") (
      digit wlan_handle
      ∷ digit tls_version
      ∷ string ca_name
      ∷ string client_cert_name
      ∷ string client_key_name
      ∷ [])

unfoldable wifi_station_set_security_enterprise6 : ℤ → ℤ → Bytes → Bytes → Bytes → Bytes → ApiCall
wifi_station_set_security_enterprise6 wlan_handle tls_version ca_name client_cert_name
      client_key_name identity =
    exec_cmd (codes "AT+UWSSE=") (
      digit wlan_handle
      ∷ digit tls_version
      ∷ string ca_name
      ∷ string client_cert_name
      ∷ string client_key_name
      ∷ string identity
      ∷ [])

unfoldable wifi_station_get_security_begin : ℤ → ℤ → OpenCall
wifi_station_get_security_begin junk wlan_handle =
    begin_variant (codes "AT+UWSS=") (digit wlan_handle ∷ []) (codes "+UWSS:") (codes "-d")
      ((pos 1, codes "-dd")
        ∷ (pos 0, codes "-d")
        ∷ (negsuc 0, codes "-dssss")
        ∷ (pos 2, codes "-ddssss")
        ∷ (negsuc 1, codes "-dss")
        ∷ (pos 3, codes "-ddss")
        ∷ [])
      junk

unfoldable wifi_station_set_security_peap4 : ℤ → ℤ → Bytes → Bytes → ApiCall
wifi_station_set_security_peap4 wlan_handle tls_version peap_user peap_password =
    exec_cmd (codes "AT+UWSSP=")
      (digit wlan_handle ∷ digit tls_version ∷ string peap_user ∷ string peap_password ∷ [])

unfoldable wifi_station_set_security_peap5 : ℤ → ℤ → Bytes → Bytes → Bytes → ApiCall
wifi_station_set_security_peap5 wlan_handle tls_version peap_user peap_password ca_name =
    exec_cmd (codes "AT+UWSSP=") (
      digit wlan_handle
      ∷ digit tls_version
      ∷ string peap_user
      ∷ string peap_password
      ∷ string ca_name
      ∷ [])

unfoldable wifi_station_set_security_wpa : ℤ → Bytes → ℤ → ApiCall
wifi_station_set_security_wpa wlan_handle passphrase wpa_threshold =
    exec_cmd (codes "AT+UWSSW=") (digit wlan_handle ∷ string passphrase ∷ digit wpa_threshold ∷ [])

unfoldable wifi_station_set_security_open : ℤ → ApiCall
wifi_station_set_security_open wlan_handle = exec_cmd (codes "AT+UWSSO=") (digit wlan_handle ∷ [])

unfoldable wifi_station_set_connection_params : ℤ → Bytes → ApiCall
wifi_station_set_connection_params wlan_handle ssid =
    exec_cmd (codes "AT+UWSCP=") (digit wlan_handle ∷ string ssid ∷ [])

unfoldable wifi_station_get_connection_params_begin : ℤ → OpenCall
wifi_station_get_connection_params_begin wlan_handle =
    begin_values (codes "AT+UWSCP=") (digit wlan_handle ∷ []) (codes "+UWSCP:") (codes "-s")

unfoldable wifi_station_set_ip_config_static4 : ℤ → IpAddress → IpAddress → IpAddress → ApiCall
wifi_station_set_ip_config_static4 wlan_handle ip_addr subnet_mask gateway =
    exec_cmd (codes "AT+UWSIPS=")
      (digit wlan_handle ∷ ip_address ip_addr ∷ ip_address subnet_mask ∷ ip_address gateway ∷ [])

unfoldable wifi_station_set_ip_config_static5 :
    ℤ → IpAddress → IpAddress → IpAddress → IpAddress → ApiCall
wifi_station_set_ip_config_static5 wlan_handle ip_addr subnet_mask gateway prim_dns =
    exec_cmd (codes "AT+UWSIPS=") (
      digit wlan_handle
      ∷ ip_address ip_addr
      ∷ ip_address subnet_mask
      ∷ ip_address gateway
      ∷ ip_address prim_dns
      ∷ [])

unfoldable wifi_station_set_ip_config_static6 :
    ℤ → IpAddress → IpAddress → IpAddress → IpAddress → IpAddress → ApiCall
wifi_station_set_ip_config_static6 wlan_handle ip_addr subnet_mask gateway prim_dns sec_dns =
    exec_cmd (codes "AT+UWSIPS=") (
      digit wlan_handle
      ∷ ip_address ip_addr
      ∷ ip_address subnet_mask
      ∷ ip_address gateway
      ∷ ip_address prim_dns
      ∷ ip_address sec_dns
      ∷ [])

unfoldable wifi_station_set_ip_config_dhcp : ℤ → ApiCall
wifi_station_set_ip_config_dhcp wlan_handle = exec_cmd (codes "AT+UWSIPD=") (digit wlan_handle ∷ [])

unfoldable pub wifi_station_get_ip_config : ℤ → ℤ → ApiCall
wifi_station_get_ip_config junk wlan_handle =
    get_variant (codes "AT+UWSIP=") (digit wlan_handle ∷ []) (codes "+UWSIP:") (codes "-d")
      ((pos 0, codes "-d") ∷ (pos 1, codes "-diiiii") ∷ []) junk

unfoldable wifi_station_connect : ℤ → ApiCall
wifi_station_connect wlan_handle = exec_cmd (codes "AT+UWSC=") (digit wlan_handle ∷ [])

unfoldable wifi_station_disconnect : ApiCall
wifi_station_disconnect = exec_cmd (codes "AT+UWSDC") []

unfoldable wifi_station_get_network_status : ℤ → ApiCall
wifi_station_get_network_status net_status_id =
    get_values (codes "AT+UWSNST=") (digit net_status_id ∷ []) (codes "+UWSNST:") (codes "-i")

unfoldable wifi_station_list_network_status_begin : OpenCall
wifi_station_list_network_status_begin = begin_cmd (codes "AT+UWSNST?") []

unfoldable wifi_station_list_network_status_get_next : OpenCall
wifi_station_list_network_status_get_next = next_values (codes "+UWSNST:") (codes "di")

unfoldable wifi_station_scan_default_begin : OpenCall
wifi_station_scan_default_begin = begin_cmd (codes "AT+UWSSC") []

unfoldable wifi_station_scan_default_get_next : OpenCall
wifi_station_scan_default_get_next = next_values (codes "+UWSSC:") (codes "msddddd")

unfoldable wifi_station_scan1_begin : ℤ → OpenCall
wifi_station_scan1_begin scan_mode = begin_cmd (codes "AT+UWSSC=") (digit scan_mode ∷ [])

unfoldable wifi_station_scan1_get_next : OpenCall
wifi_station_scan1_get_next = next_values (codes "+UWSSC:") (codes "msddddd")

unfoldable wifi_station_scan2_begin : ℤ → Bytes → OpenCall
wifi_station_scan2_begin scan_mode ssid =
    begin_cmd (codes "AT+UWSSC=") (digit scan_mode ∷ string ssid ∷ [])

unfoldable wifi_station_scan2_get_next : OpenCall
wifi_station_scan2_get_next = next_values (codes "+UWSSC:") (codes "msddddd")

unfoldable wifi_station_status_begin : ℤ → ℤ → OpenCall
wifi_station_status_begin junk status_id =
    begin_variant (codes "AT+UWSST=") (digit status_id ∷ []) (codes "+UWSST:") (codes "d")
      ((pos 0, codes "ds")
        ∷ (pos 1, codes "dm")
        ∷ (pos 2, codes "dd")
        ∷ (pos 3, codes "dd")
        ∷ (pos 4, codes "dd")
        ∷ [])
      junk

unfoldable wifi_station_set_roaming_bg_scan_threshold : ℤ → ApiCall
wifi_station_set_roaming_bg_scan_threshold roaming_scanning_threshold =
    exec_cmd (codes "AT+UWSROS0=") (digit roaming_scanning_threshold ∷ [])

unfoldable wifi_station_get_roaming_bg_scan_threshold : ApiCall
wifi_station_get_roaming_bg_scan_threshold =
    get_values (codes "AT+UWSROS0?") [] (codes "+UWSROS0:") (codes "d")

unfoldable wifi_station_set_roaming_switch_limit : ℤ → ApiCall
wifi_station_set_roaming_switch_limit roaming_switch_limit =
    exec_cmd (codes "AT+UWSROS1=") (digit roaming_switch_limit ∷ [])

unfoldable wifi_station_get_roaming_switch_limit : ApiCall
wifi_station_get_roaming_switch_limit =
    get_values (codes "AT+UWSROS1?") [] (codes "+UWSROS1:") (codes "d")

unfoldable wifi_station_set_roaming_scan_interval : ℤ → ApiCall
wifi_station_set_roaming_scan_interval roaming_scan_interval =
    exec_cmd (codes "AT+UWSROS2=") (digit roaming_scan_interval ∷ [])

unfoldable wifi_station_get_roaming_scan_interval : ApiCall
wifi_station_get_roaming_scan_interval =
    get_values (codes "AT+UWSROS2?") [] (codes "+UWSROS2:") (codes "d")

unfoldable wifi_station_set_aggressive_roaming : ℤ → ApiCall
wifi_station_set_aggressive_roaming roaming_aggressive =
    exec_cmd (codes "AT+UWSROS3=") (digit roaming_aggressive ∷ [])

unfoldable wifi_station_get_aggressive_roaming : ApiCall
wifi_station_get_aggressive_roaming =
    get_values (codes "AT+UWSROS3?") [] (codes "+UWSROS3:") (codes "d")

unfoldable wifi_station_set_roaming_delay_ms : ℤ → ApiCall
wifi_station_set_roaming_delay_ms roaming_delay_time =
    exec_cmd (codes "AT+UWSROS4=") (digit roaming_delay_time ∷ [])

unfoldable wifi_station_get_roaming_delay_ms : ApiCall
wifi_station_get_roaming_delay_ms =
    get_values (codes "AT+UWSROS4?") [] (codes "+UWSROS4:") (codes "d")

unfoldable wifi_station_set_roaming_all_channels : ℤ → ApiCall
wifi_station_set_roaming_all_channels roaming_channels =
    exec_cmd (codes "AT+UWSROS5=") (digit roaming_channels ∷ [])

unfoldable wifi_station_get_roaming_all_channels : ApiCall
wifi_station_get_roaming_all_channels =
    get_values (codes "AT+UWSROS5?") [] (codes "+UWSROS5:") (codes "d")
