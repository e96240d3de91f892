-- ===== src/UcxApi/Commands/Mqtt.antt =====
-- The functions of ucx_api/generated/u_cx_mqtt.c.
use ucxclient.Prelude.{Bytes, codes, [], ◌∷◌}
use ucxclient.Prelude.Int.{ℤ, pos}
use ucxclient.AtClient.Send.{digit, string, binary}
use ucxclient.UcxApi.Call.{
  ApiCall, OpenCall, exec_cmd, get_values, begin_values, get_number, begin_binary,
}
use ucxclient.UcxApi.Variant.{begin_variant}

unfoldable mqtt_set_connection_params3 : ℤ → Bytes → ℤ → ApiCall
mqtt_set_connection_params3 mqtt_id hostname port =
    exec_cmd (codes "AT+UMQCP=") (digit mqtt_id ∷ string hostname ∷ digit port ∷ [])

unfoldable mqtt_set_connection_params4 : ℤ → Bytes → ℤ → Bytes → ApiCall
mqtt_set_connection_params4 mqtt_id hostname port client_id =
    exec_cmd (codes "AT+UMQCP=")
      (digit mqtt_id ∷ string hostname ∷ digit port ∷ string client_id ∷ [])

unfoldable mqtt_set_connection_params5 : ℤ → Bytes → ℤ → Bytes → Bytes → ApiCall
mqtt_set_connection_params5 mqtt_id hostname port client_id username =
    exec_cmd (codes "AT+UMQCP=")
      (digit mqtt_id ∷ string hostname ∷ digit port ∷ string client_id ∷ string username ∷ [])

unfoldable mqtt_set_connection_params6 : ℤ → Bytes → ℤ → Bytes → Bytes → Bytes → ApiCall
mqtt_set_connection_params6 mqtt_id hostname port client_id username password =
    exec_cmd (codes "AT+UMQCP=") (
      digit mqtt_id
      ∷ string hostname
      ∷ digit port
      ∷ string client_id
      ∷ string username
      ∷ string password
      ∷ [])

unfoldable mqtt_get_connection_params_begin : ℤ → OpenCall
mqtt_get_connection_params_begin mqtt_id =
    begin_values (codes "AT+UMQCP=") (digit mqtt_id ∷ []) (codes "+UMQCP:") (codes "-sdss")

unfoldable mqtt_connect : ℤ → ApiCall
mqtt_connect mqtt_id = exec_cmd (codes "AT+UMQC=") (digit mqtt_id ∷ [])

unfoldable mqtt_set_keep_alive : ℤ → ℤ → ApiCall
mqtt_set_keep_alive mqtt_id keep_alive =
    exec_cmd (codes "AT+UMQKA=") (digit mqtt_id ∷ digit keep_alive ∷ [])

unfoldable mqtt_get_keep_alive : ℤ → ApiCall
mqtt_get_keep_alive mqtt_id =
    get_values (codes "AT+UMQKA=") (digit mqtt_id ∷ []) (codes "+UMQKA:") (codes "-d")

unfoldable mqtt_set_last_will_and_testament3 : ℤ → Bytes → Bytes → ApiCall
mqtt_set_last_will_and_testament3 mqtt_id topic will_msg =
    exec_cmd (codes "AT+UMQLWT=") (digit mqtt_id ∷ string topic ∷ string will_msg ∷ [])

unfoldable mqtt_set_last_will_and_testament4 : ℤ → Bytes → Bytes → ℤ → ApiCall
mqtt_set_last_will_and_testament4 mqtt_id topic will_msg qos =
    exec_cmd (codes "AT+UMQLWT=") (digit mqtt_id ∷ string topic ∷ string will_msg ∷ digit qos ∷ [])

unfoldable mqtt_set_last_will_and_testament5 : ℤ → Bytes → Bytes → ℤ → ℤ → ApiCall
mqtt_set_last_will_and_testament5 mqtt_id topic will_msg qos retain =
    exec_cmd (codes "AT+UMQLWT=")
      (digit mqtt_id ∷ string topic ∷ string will_msg ∷ digit qos ∷ digit retain ∷ [])

unfoldable mqtt_get_last_will_and_testament_begin : ℤ → OpenCall
mqtt_get_last_will_and_testament_begin mqtt_id =
    begin_values (codes "AT+UMQLWT=") (digit mqtt_id ∷ []) (codes "+UMQLWT:") (codes "-ssdd")

unfoldable mqtt_set_tls2 : ℤ → ℤ → ApiCall
mqtt_set_tls2 mqtt_id tls_version =
    exec_cmd (codes "AT+UMQTLS=") (digit mqtt_id ∷ digit tls_version ∷ [])

unfoldable mqtt_set_tls3 : ℤ → ℤ → Bytes → ApiCall
mqtt_set_tls3 mqtt_id tls_version ca_name =
    exec_cmd (codes "AT+UMQTLS=") (digit mqtt_id ∷ digit tls_version ∷ string ca_name ∷ [])

unfoldable mqtt_set_tls5 : ℤ → ℤ → Bytes → Bytes → Bytes → ApiCall
mqtt_set_tls5 mqtt_id tls_version ca_name client_cert_name client_key_name =
    exec_cmd (codes "AT+UMQTLS=") (
      digit mqtt_id
      ∷ digit tls_version
      ∷ string ca_name
      ∷ string client_cert_name
      ∷ string client_key_name
      ∷ [])

unfoldable mqtt_get_tls_begin : ℤ → ℤ → OpenCall
mqtt_get_tls_begin junk mqtt_id =
    begin_variant (codes "AT+UMQTLS=") (digit mqtt_id ∷ []) (codes "+UMQTLS:") (codes "-d")
      ((pos 1, codes "-dsss")
        ∷ (pos 2, codes "-dsss")
        ∷ (pos 3, codes "-dsss")
        ∷ (pos 4, codes "-dsss")
        ∷ (pos 0, codes "-d")
        ∷ [])
      junk

unfoldable mqtt_disconnect : ℤ → ApiCall
mqtt_disconnect mqtt_id = exec_cmd (codes "AT+UMQDC=") (digit mqtt_id ∷ [])

unfoldable mqtt_publish : ℤ → ℤ → ℤ → ℤ → Bytes → Bytes → ApiCall
mqtt_publish junk mqtt_id qos retain topic binary_data =
    get_number junk (codes "AT+UMQPB=")
      (digit mqtt_id ∷ digit qos ∷ digit retain ∷ string topic ∷ binary binary_data ∷ [])
      (codes "+UMQPB:") (codes "-d")

unfoldable mqtt_subscribe3 : ℤ → ℤ → Bytes → ApiCall
mqtt_subscribe3 mqtt_id subscribe_action topic =
    exec_cmd (codes "AT+UMQS=") (digit mqtt_id ∷ digit subscribe_action ∷ string topic ∷ [])

unfoldable mqtt_subscribe4 : ℤ → ℤ → Bytes → ℤ → ApiCall
mqtt_subscribe4 mqtt_id subscribe_action topic qos =
    exec_cmd (codes "AT+UMQS=")
      (digit mqtt_id ∷ digit subscribe_action ∷ string topic ∷ digit qos ∷ [])

unfoldable mqtt_read_begin : ℤ → Bytes → ℤ → OpenCall
mqtt_read_begin mqtt_id data_buf data_buf_length =
    begin_binary (codes "AT+UMQRB=") (digit mqtt_id ∷ []) (codes "+UMQRB:") (codes "-s") data_buf
      data_buf_length
