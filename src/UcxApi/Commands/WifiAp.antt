-- ===== src/UcxApi/Commands/WifiAp.antt =====
-- The functions of ucx_api/generated/u_cx_wifi.c with these names.
use ucxclient.Prelude.{List, Bytes, codes, [], ◌∷◌}
use ucxclient.Prelude.Int.{ℤ, pos}
use ucxclient.AtClient.Send.{digit, int_list, string}
use ucxclient.UcxApi.Call.{
  ApiCall, OpenCall, exec_cmd, get_values, begin_values, begin_cmd, next_values,
}
use ucxclient.UcxApi.Variant.{get_variant}

unfoldable wifi_set_hostname : Bytes → ApiCall
wifi_set_hostname host_name = exec_cmd (codes "AT+UWHN=") (string host_name ∷ [])

unfoldable wifi_get_hostname_begin : OpenCall
wifi_get_hostname_begin = begin_values (codes "AT+UWHN?") [] (codes "+UWHN:") (codes "s")

unfoldable wifi_set_regulatory_domain : ℤ → ApiCall
wifi_set_regulatory_domain reg_domain = exec_cmd (codes "AT+UWRD=") (digit reg_domain ∷ [])

unfoldable wifi_get_regulatory_domain : ApiCall
wifi_get_regulatory_domain = get_values (codes "AT+UWRD?") [] (codes "+UWRD:") (codes "d")

unfoldable wifi_set_channel_list : List ℤ → ApiCall
wifi_set_channel_list channel_list = exec_cmd (codes "AT+UWCL=") (int_list channel_list ∷ [])

unfoldable wifi_get_channel_list : ApiCall
wifi_get_channel_list = get_values (codes "AT+UWCL?") [] (codes "+UWCL:") (codes "l")

unfoldable wifi_get_active_channels : ApiCall
wifi_get_active_channels = get_values (codes "AT+UWAC?") [] (codes "+UWAC:") (codes "l")

unfoldable wifi_ap_activate : ApiCall
wifi_ap_activate = exec_cmd (codes "AT+UWAPA") []

unfoldable wifi_ap_deactivate : ApiCall
wifi_ap_deactivate = exec_cmd (codes "AT+UWAPD") []

unfoldable wifi_ap_set_connection_params1 : Bytes → ApiCall
wifi_ap_set_connection_params1 ssid = exec_cmd (codes "AT+UWAPCP=") (string ssid ∷ [])

unfoldable wifi_ap_set_connection_params2 : Bytes → ℤ → ApiCall
wifi_ap_set_connection_params2 ssid channel =
    exec_cmd (codes "AT+UWAPCP=") (string ssid ∷ digit channel ∷ [])

unfoldable wifi_ap_get_connection_params_begin : OpenCall
wifi_ap_get_connection_params_begin =
    begin_values (codes "AT+UWAPCP?") [] (codes "+UWAPCP:") (codes "sd")

unfoldable wifi_ap_set_security_wpa1 : Bytes → ApiCall
wifi_ap_set_security_wpa1 passphrase = exec_cmd (codes "AT+UWAPSW=") (string passphrase ∷ [])

unfoldable wifi_ap_set_security_wpa2 : Bytes → ℤ → ApiCall
wifi_ap_set_security_wpa2 passphrase wpa_version =
    exec_cmd (codes "AT+UWAPSW=") (string passphrase ∷ digit wpa_version ∷ [])

unfoldable wifi_ap_set_security_open : ApiCall
wifi_ap_set_security_open = exec_cmd (codes "AT+UWAPSO") []

unfoldable wifi_ap_get_security : ℤ → ApiCall
wifi_ap_get_security junk =
    get_variant (codes "AT+UWAPS?") [] (codes "+UWAPS:") (codes "d")
      ((pos 1, codes "dd") ∷ (pos 0, codes "d") ∷ []) junk

unfoldable wifi_ap_list_stations_begin : OpenCall
wifi_ap_list_stations_begin = begin_cmd (codes "AT+UWAPCS?") []

unfoldable wifi_ap_list_stations_get_next : OpenCall
wifi_ap_list_stations_get_next = next_values (codes "+UWAPCS:") (codes "m")

unfoldable wifi_ap_get_network_status : ℤ → ApiCall
wifi_ap_get_network_status net_status_id =
    get_values (codes "AT+UWAPNST=") (digit net_status_id ∷ []) (codes "+UWAPNST:") (codes "-i")

unfoldable wifi_ap_list_network_status_begin : OpenCall
wifi_ap_list_network_status_begin = begin_cmd (codes "AT+UWAPNST?") []

unfoldable wifi_ap_list_network_status_get_next : OpenCall
wifi_ap_list_network_status_get_next = next_values (codes "+UWAPNST:") (codes "di")

unfoldable wifi_set_wifi_roaming : ℤ → ApiCall
wifi_set_wifi_roaming roaming = exec_cmd (codes "AT+UWSROE=") (digit roaming ∷ [])

unfoldable wifi_get_wifi_roaming : ApiCall
wifi_get_wifi_roaming = get_values (codes "AT+UWSROE?") [] (codes "+UWSROE:") (codes "d")
