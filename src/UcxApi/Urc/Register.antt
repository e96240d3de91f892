-- ===== src/UcxApi/Urc/Register.antt =====
-- The registration of URC callbacks in ucx_api/generated: each function sets one of the callbacks.
use ucxclient.Prelude.{Bool, true, false}
use ucxclient.AtClient.State.{Client}
use ucxclient.AtClient.Command.{set_urc_callback}
use ucxclient.UcxApi.Urc.{Callbacks}

-- `memset` in uCxInit of ucx_api/u_cx.c: no callback is set.
unfoldable pub no_callbacks : Callbacks
no_callbacks = record {
  on_startup = false;
  on_uebtc = false;
  on_uebtdc = false;
  on_uebtb = false;
  on_uebtuc = false;
  on_uebtupd = false;
  on_uebtupe = false;
  on_uebtphyu = false;
  on_uebtbgd = false;
  on_uebtgcn = false;
  on_uebtgci = false;
  on_uebtgcw = false;
  on_uebtgrr = false;
  on_uebtgic = false;
  on_uespsc = false;
  on_uespsdc = false;
  on_uespsds = false;
  on_uespsdb = false;
  on_uespsda = false;
  on_uewlu = false;
  on_uewld = false;
  on_uewsnu = false;
  on_uewsnd = false;
  on_uewsrsi = false;
  on_uewsrsf = false;
  on_uewsrsc = false;
  on_uewapnu = false;
  on_uewapnd = false;
  on_uewapu = false;
  on_uewapd = false;
  on_uewapsa = false;
  on_uewapsda = false;
  on_uesoc = false;
  on_uesoda = false;
  on_uesods = false;
  on_uesodsf = false;
  on_uesodb = false;
  on_uesodbf = false;
  on_uesocl = false;
  on_uesoic = false;
  on_uemqc = false;
  on_uemqdc = false;
  on_uemqda = false;
  on_uemqdd = false;
  on_uemqpc = false;
  on_uemqsc = false;
  on_uehtcdc = false;
  on_uehtcrs = false;
  on_uedgpc = false;
  on_uedgp = false;
  on_uedgi = false;
}

-- `uCxInit`: the client with the callback for URCs set, and the callbacks of the handle.
unfoldable ucx_init : Client → Client × Callbacks
ucx_init c = (set_urc_callback c true, no_callbacks)

unfoldable general_register_startup : Callbacks → Bool → Callbacks
general_register_startup h callback = record h { on_startup = callback }

unfoldable pub bluetooth_register_connect : Callbacks → Bool → Callbacks
bluetooth_register_connect h callback = record h { on_uebtc = callback }

unfoldable bluetooth_register_disconnect : Callbacks → Bool → Callbacks
bluetooth_register_disconnect h callback = record h { on_uebtdc = callback }

unfoldable pub bluetooth_register_bond_status : Callbacks → Bool → Callbacks
bluetooth_register_bond_status h callback = record h { on_uebtb = callback }

unfoldable bluetooth_register_user_confirmation : Callbacks → Bool → Callbacks
bluetooth_register_user_confirmation h callback = record h { on_uebtuc = callback }

unfoldable bluetooth_register_passkey_entry : Callbacks → Bool → Callbacks
bluetooth_register_passkey_entry h callback = record h { on_uebtupd = callback }

unfoldable bluetooth_register_passkey_request : Callbacks → Bool → Callbacks
bluetooth_register_passkey_request h callback = record h { on_uebtupe = callback }

unfoldable bluetooth_register_phy_update : Callbacks → Bool → Callbacks
bluetooth_register_phy_update h callback = record h { on_uebtphyu = callback }

unfoldable bluetooth_register_background_discovery : Callbacks → Bool → Callbacks
bluetooth_register_background_discovery h callback = record h { on_uebtbgd = callback }

unfoldable gatt_client_register_notification : Callbacks → Bool → Callbacks
gatt_client_register_notification h callback = record h { on_uebtgcn = callback }

unfoldable gatt_client_register_indication : Callbacks → Bool → Callbacks
gatt_client_register_indication h callback = record h { on_uebtgci = callback }

unfoldable gatt_server_register_notification : Callbacks → Bool → Callbacks
gatt_server_register_notification h callback = record h { on_uebtgcw = callback }

unfoldable gatt_server_register_read_attribute : Callbacks → Bool → Callbacks
gatt_server_register_read_attribute h callback = record h { on_uebtgrr = callback }

unfoldable gatt_server_register_indication_ack : Callbacks → Bool → Callbacks
gatt_server_register_indication_ack h callback = record h { on_uebtgic = callback }

unfoldable sps_register_connect : Callbacks → Bool → Callbacks
sps_register_connect h callback = record h { on_uespsc = callback }

unfoldable sps_register_disconnect : Callbacks → Bool → Callbacks
sps_register_disconnect h callback = record h { on_uespsdc = callback }

unfoldable sps_register_data_available : Callbacks → Bool → Callbacks
sps_register_data_available h callback = record h { on_uespsda = callback }

unfoldable wifi_register_link_up : Callbacks → Bool → Callbacks
wifi_register_link_up h callback = record h { on_uewlu = callback }

unfoldable wifi_register_link_down : Callbacks → Bool → Callbacks
wifi_register_link_down h callback = record h { on_uewld = callback }

unfoldable wifi_register_station_network_up : Callbacks → Bool → Callbacks
wifi_register_station_network_up h callback = record h { on_uewsnu = callback }

unfoldable wifi_register_station_network_down : Callbacks → Bool → Callbacks
wifi_register_station_network_down h callback = record h { on_uewsnd = callback }

unfoldable wifi_register_station_roaming_switch_initiated : Callbacks → Bool → Callbacks
wifi_register_station_roaming_switch_initiated h callback = record h { on_uewsrsi = callback }

unfoldable wifi_register_station_roaming_switch_failed : Callbacks → Bool → Callbacks
wifi_register_station_roaming_switch_failed h callback = record h { on_uewsrsf = callback }

unfoldable wifi_register_station_roaming_switch_completed : Callbacks → Bool → Callbacks
wifi_register_station_roaming_switch_completed h callback = record h { on_uewsrsc = callback }

unfoldable wifi_register_ap_network_up : Callbacks → Bool → Callbacks
wifi_register_ap_network_up h callback = record h { on_uewapnu = callback }

unfoldable wifi_register_ap_network_down : Callbacks → Bool → Callbacks
wifi_register_ap_network_down h callback = record h { on_uewapnd = callback }

unfoldable wifi_register_ap_up : Callbacks → Bool → Callbacks
wifi_register_ap_up h callback = record h { on_uewapu = callback }

unfoldable wifi_register_ap_down : Callbacks → Bool → Callbacks
wifi_register_ap_down h callback = record h { on_uewapd = callback }

unfoldable wifi_register_ap_station_associated : Callbacks → Bool → Callbacks
wifi_register_ap_station_associated h callback = record h { on_uewapsa = callback }

unfoldable wifi_register_ap_station_disassociated : Callbacks → Bool → Callbacks
wifi_register_ap_station_disassociated h callback = record h { on_uewapsda = callback }

unfoldable socket_register_connect : Callbacks → Bool → Callbacks
socket_register_connect h callback = record h { on_uesoc = callback }

unfoldable socket_register_data_available : Callbacks → Bool → Callbacks
socket_register_data_available h callback = record h { on_uesoda = callback }

unfoldable socket_register_closed : Callbacks → Bool → Callbacks
socket_register_closed h callback = record h { on_uesocl = callback }

unfoldable socket_register_incoming_connection : Callbacks → Bool → Callbacks
socket_register_incoming_connection h callback = record h { on_uesoic = callback }

unfoldable mqtt_register_connect : Callbacks → Bool → Callbacks
mqtt_register_connect h callback = record h { on_uemqc = callback }

unfoldable mqtt_register_disconnect : Callbacks → Bool → Callbacks
mqtt_register_disconnect h callback = record h { on_uemqdc = callback }

unfoldable mqtt_register_data_available : Callbacks → Bool → Callbacks
mqtt_register_data_available h callback = record h { on_uemqda = callback }

unfoldable mqtt_register_data_dropped : Callbacks → Bool → Callbacks
mqtt_register_data_dropped h callback = record h { on_uemqdd = callback }

unfoldable mqtt_register_publish_completed : Callbacks → Bool → Callbacks
mqtt_register_publish_completed h callback = record h { on_uemqpc = callback }

unfoldable mqtt_register_subscribe_completed : Callbacks → Bool → Callbacks
mqtt_register_subscribe_completed h callback = record h { on_uemqsc = callback }

unfoldable http_register_disconnect : Callbacks → Bool → Callbacks
http_register_disconnect h callback = record h { on_uehtcdc = callback }

unfoldable pub http_register_request_status : Callbacks → Bool → Callbacks
http_register_request_status h callback = record h { on_uehtcrs = callback }

unfoldable diagnostics_register_ping_complete : Callbacks → Bool → Callbacks
diagnostics_register_ping_complete h callback = record h { on_uedgpc = callback }

unfoldable diagnostics_register_ping_response : Callbacks → Bool → Callbacks
diagnostics_register_ping_response h callback = record h { on_uedgp = callback }

unfoldable diagnostics_register_iperf_output : Callbacks → Bool → Callbacks
diagnostics_register_iperf_output h callback = record h { on_uedgi = callback }
