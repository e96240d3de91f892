-- ===== src/UcxApi/Commands/GattClient.antt =====
-- The functions of ucx_api/generated/u_cx_gatt_client.c.
use ucxclient.Prelude.{Bytes, codes, [], ◌∷◌}
use ucxclient.Prelude.Int.{ℤ}
use ucxclient.AtClient.Send.{digit, hex}
use ucxclient.UcxApi.Call.{ApiCall, OpenCall, exec_cmd, begin_values, begin_cmd, next_values}

unfoldable gatt_client_discover_primary_services_begin : ℤ → OpenCall
gatt_client_discover_primary_services_begin conn_handle =
    begin_cmd (codes "AT+UBTGPSD=") (digit conn_handle ∷ [])

unfoldable gatt_client_discover_primary_services_get_next : OpenCall
gatt_client_discover_primary_services_get_next = next_values (codes "+UBTGPSD:") (codes "-ddh")

unfoldable gatt_client_discover_primary_services_by_uuid_begin : ℤ → Bytes → OpenCall
gatt_client_discover_primary_services_by_uuid_begin conn_handle uuid =
    begin_cmd (codes "AT+UBTGPSDU=") (digit conn_handle ∷ hex uuid ∷ [])

unfoldable gatt_client_discover_primary_services_by_uuid_get_next : OpenCall
gatt_client_discover_primary_services_by_uuid_get_next =
    next_values (codes "+UBTGPSDU:") (codes "-dd")

unfoldable gatt_client_discover_service_chars_begin : ℤ → ℤ → ℤ → OpenCall
gatt_client_discover_service_chars_begin conn_handle start_handle end_handle =
    begin_cmd (codes "AT+UBTGSCD=") (digit conn_handle ∷ digit start_handle ∷ digit end_handle ∷ [])

unfoldable gatt_client_discover_service_chars_get_next : OpenCall
gatt_client_discover_service_chars_get_next = next_values (codes "+UBTGSCD:") (codes "-dhdh")

unfoldable gatt_client_discover_char_descriptors_begin : ℤ → ℤ → ℤ → OpenCall
gatt_client_discover_char_descriptors_begin conn_handle value_handle char_end_handle =
    begin_cmd (codes "AT+UBTGCDD=")
      (digit conn_handle ∷ digit value_handle ∷ digit char_end_handle ∷ [])

unfoldable gatt_client_discover_char_descriptors_get_next : OpenCall
gatt_client_discover_char_descriptors_get_next = next_values (codes "+UBTGCDD:") (codes "-ddh")

unfoldable gatt_client_read_begin : ℤ → ℤ → OpenCall
gatt_client_read_begin conn_handle value_handle =
    begin_values (codes "AT+UBTGR=") (digit conn_handle ∷ digit value_handle ∷ []) (codes "+UBTGR:")
      (codes "--h")

unfoldable gatt_client_read_by_uuid_begin : ℤ → ℤ → ℤ → Bytes → OpenCall
gatt_client_read_by_uuid_begin conn_handle start_handle end_handle uuid =
    begin_values (codes "AT+UBTGRU=")
      (digit conn_handle ∷ digit start_handle ∷ digit end_handle ∷ hex uuid ∷ []) (codes "+UBTGRU:")
      (codes "-dh")

unfoldable gatt_client_write : ℤ → ℤ → Bytes → ApiCall
gatt_client_write conn_handle value_handle hex_data =
    exec_cmd (codes "AT+UBTGW=") (digit conn_handle ∷ digit value_handle ∷ hex hex_data ∷ [])

unfoldable gatt_client_config_write : ℤ → ℤ → ℤ → ApiCall
gatt_client_config_write conn_handle desc_handle config =
    exec_cmd (codes "AT+UBTGCCW=") (digit conn_handle ∷ digit desc_handle ∷ digit config ∷ [])

unfoldable gatt_client_write_no_rsp : ℤ → ℤ → Bytes → ApiCall
gatt_client_write_no_rsp conn_handle value_handle hex_data =
    exec_cmd (codes "AT+UBTGWNR=") (digit conn_handle ∷ digit value_handle ∷ hex hex_data ∷ [])

unfoldable gatt_client_write_long : ℤ → ℤ → Bytes → ℤ → ℤ → ℤ → ApiCall
gatt_client_write_long conn_handle value_handle hex_data reliable flag offset =
    exec_cmd (codes "AT+UBTGWL=") (
      digit conn_handle
      ∷ digit value_handle
      ∷ hex hex_data
      ∷ digit reliable
      ∷ digit flag
      ∷ digit offset
      ∷ [])
