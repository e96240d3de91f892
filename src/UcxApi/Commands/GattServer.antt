-- ===== src/UcxApi/Commands/GattServer.antt =====
-- The functions of ucx_api/generated/u_cx_gatt_server.c.
use ucxclient.Prelude.{Bytes, codes, [], ◌∷◌}
use ucxclient.Prelude.Int.{ℤ}
use ucxclient.AtClient.Send.{digit, hex}
use ucxclient.UcxApi.Call.{ApiCall, exec_cmd, get_values}

unfoldable gatt_server_service_define : Bytes → ApiCall
gatt_server_service_define uuid =
    get_values (codes "AT+UBTGS=") (hex uuid ∷ []) (codes "+UBTGS:") (codes "d")

unfoldable gatt_server_char_define5 : Bytes → Bytes → ℤ → ℤ → Bytes → ApiCall
gatt_server_char_define5 uuid properties read_security write_security value =
    get_values (codes "AT+UBTGC=")
      (hex uuid ∷ hex properties ∷ digit read_security ∷ digit write_security ∷ hex value ∷ [])
      (codes "+UBTGC:") (codes "dd")

unfoldable gatt_server_char_define6 : Bytes → Bytes → ℤ → ℤ → Bytes → ℤ → ApiCall
gatt_server_char_define6 uuid properties read_security write_security value max_length =
    get_values (codes "AT+UBTGC=")
      (hex uuid
        ∷ hex properties
        ∷ digit read_security
        ∷ digit write_security
        ∷ hex value
        ∷ digit max_length
        ∷ [])
      (codes "+UBTGC:") (codes "dd")

unfoldable gatt_server_host_char_define : Bytes → Bytes → ℤ → ℤ → ApiCall
gatt_server_host_char_define uuid properties read_security write_security =
    get_values (codes "AT+UBTGHCC=")
      (hex uuid ∷ hex properties ∷ digit read_security ∷ digit write_security ∷ [])
      (codes "+UBTGHCC:") (codes "dd")

unfoldable gatt_server_descriptor_define4 : Bytes → ℤ → ℤ → Bytes → ApiCall
gatt_server_descriptor_define4 uuid read_security write_security value =
    get_values (codes "AT+UBTGD=")
      (hex uuid ∷ digit read_security ∷ digit write_security ∷ hex value ∷ []) (codes "+UBTGD:")
      (codes "d")

unfoldable gatt_server_descriptor_define5 : Bytes → ℤ → ℤ → Bytes → ℤ → ApiCall
gatt_server_descriptor_define5 uuid read_security write_security value max_length =
    get_values (codes "AT+UBTGD=")
      (hex uuid ∷ digit read_security ∷ digit write_security ∷ hex value ∷ digit max_length ∷ [])
      (codes "+UBTGD:") (codes "d")

unfoldable gatt_server_service_activate : ApiCall
gatt_server_service_activate = exec_cmd (codes "AT+UBTGSA") []

unfoldable gatt_server_read_req_response : ℤ → Bytes → ApiCall
gatt_server_read_req_response conn_handle value =
    exec_cmd (codes "AT+UBTGRRR=") (digit conn_handle ∷ hex value ∷ [])

unfoldable gatt_server_send_notification : ℤ → ℤ → Bytes → ApiCall
gatt_server_send_notification conn_handle char_handle value =
    exec_cmd (codes "AT+UBTGNS=") (digit conn_handle ∷ digit char_handle ∷ hex value ∷ [])

unfoldable gatt_server_send_indication : ℤ → ℤ → Bytes → ApiCall
gatt_server_send_indication conn_handle char_handle value =
    exec_cmd (codes "AT+UBTGIS=") (digit conn_handle ∷ digit char_handle ∷ hex value ∷ [])

unfoldable gatt_server_set_attr_value : ℤ → Bytes → ApiCall
gatt_server_set_attr_value attr_handle value =
    exec_cmd (codes "AT+UBTGAV=") (digit attr_handle ∷ hex value ∷ [])

unfoldable gatt_server_read_req_error : ℤ → Bytes → ApiCall
gatt_server_read_req_error conn_handle error_code =
    exec_cmd (codes "AT+UBTGRRRE=") (digit conn_handle ∷ hex error_code ∷ [])

unfoldable gatt_server_write_req_error : ℤ → Bytes → ApiCall
gatt_server_write_req_error conn_handle error_code =
    exec_cmd (codes "AT+UBTGWRE=") (digit conn_handle ∷ hex error_code ∷ [])

unfoldable gatt_server_write_req_response : ℤ → ApiCall
gatt_server_write_req_response conn_handle = exec_cmd (codes "AT+UBTGWRR=") (digit conn_handle ∷ [])

unfoldable gatt_server_send_service_changed_ind : ℤ → ℤ → ℤ → ApiCall
gatt_server_send_service_changed_ind conn_handle start_handle end_handle =
    exec_cmd (codes "AT+UBTGSCI=") (digit conn_handle ∷ digit start_handle ∷ digit end_handle ∷ [])
