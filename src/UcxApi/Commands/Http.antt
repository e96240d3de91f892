-- ===== src/UcxApi/Commands/Http.antt =====
-- The functions of ucx_api/generated/u_cx_http.c.
use ucxclient.Prelude.{Bytes, codes, [], ◌∷◌}
use ucxclient.Prelude.Int.{ℤ}
use ucxclient.AtClient.Send.{digit, string, binary_string, binary}
use ucxclient.UcxApi.Call.{ApiCall, OpenCall, exec_cmd, begin_values, get_number, get_binary}

unfoldable http_set_connection_params2 : ℤ → Bytes → ApiCall
http_set_connection_params2 session_id host =
    exec_cmd (codes "AT+UHTCCP=") (digit session_id ∷ string host ∷ [])

unfoldable http_set_connection_params3 : ℤ → Bytes → ℤ → ApiCall
http_set_connection_params3 session_id host port =
    exec_cmd (codes "AT+UHTCCP=") (digit session_id ∷ string host ∷ digit port ∷ [])

unfoldable http_set_tls2 : ℤ → ℤ → ApiCall
http_set_tls2 session_id tls_version =
    exec_cmd (codes "AT+UHTCTLS=") (digit session_id ∷ digit tls_version ∷ [])

unfoldable http_set_tls3 : ℤ → ℤ → Bytes → ApiCall
http_set_tls3 session_id tls_version ca_name =
    exec_cmd (codes "AT+UHTCTLS=") (digit session_id ∷ digit tls_version ∷ string ca_name ∷ [])

unfoldable http_set_tls5 : ℤ → ℤ → Bytes → Bytes → Bytes → ApiCall
http_set_tls5 session_id tls_version ca_name client_cert_name client_key_name =
    exec_cmd (codes "AT+UHTCTLS=") (
      digit session_id
      ∷ digit tls_version
      ∷ string ca_name
      ∷ string client_cert_name
      ∷ string client_key_name
      ∷ [])

unfoldable http_get_tls_begin : ℤ → OpenCall
http_get_tls_begin session_id =
    begin_values (codes "AT+UHTCTLS=") (digit session_id ∷ []) (codes "+UHTCTLS:") (codes "ddsss")

unfoldable http_disconnect : ℤ → ApiCall
http_disconnect session_id = exec_cmd (codes "AT+UHTCDC=") (digit session_id ∷ [])

unfoldable http_get_header1_begin : ℤ → OpenCall
http_get_header1_begin session_id =
    begin_values (codes "AT+UHTCGH=") (digit session_id ∷ []) (codes "+UHTCGH:") (codes "dd$")

unfoldable http_get_header2_begin : ℤ → ℤ → OpenCall
http_get_header2_begin session_id data_length =
    begin_values (codes "AT+UHTCGH=") (digit session_id ∷ digit data_length ∷ []) (codes "+UHTCGH:")
      (codes "dd$")

unfoldable http_get_body : ℤ → ℤ → Bytes → ApiCall
http_get_body session_id data_length data_buf =
    get_binary (codes "AT+UHTCGBB=") (digit session_id ∷ digit data_length ∷ []) (codes "+UHTCGBB:")
      (codes "-d") data_buf data_length

unfoldable http_add_header_field : ℤ → Bytes → Bytes → ApiCall
http_add_header_field session_id field_name field_value =
    exec_cmd (codes "AT+UHTCRHAF=") (digit session_id ∷ string field_name ∷ string field_value ∷ [])

unfoldable http_set_custom_header : ℤ → Bytes → ApiCall
http_set_custom_header session_id header_data =
    exec_cmd (codes "AT+UHTCRHCS=") (digit session_id ∷ string header_data ∷ [])

unfoldable http_clear_header_custom : ℤ → ApiCall
http_clear_header_custom session_id = exec_cmd (codes "AT+UHTCRHCC=") (digit session_id ∷ [])

unfoldable http_set_request_path : ℤ → Bytes → ApiCall
http_set_request_path session_id path =
    exec_cmd (codes "AT+UHTCRP=") (digit session_id ∷ string path ∷ [])

unfoldable http_get_request_path_begin : ℤ → OpenCall
http_get_request_path_begin session_id =
    begin_values (codes "AT+UHTCRP=") (digit session_id ∷ []) (codes "+UHTCRP:") (codes "ds")

unfoldable http_get_request : ℤ → ApiCall
http_get_request session_id = exec_cmd (codes "AT+UHTCRG=") (digit session_id ∷ [])

unfoldable http_get_get_request_header_begin : ℤ → OpenCall
http_get_get_request_header_begin session_id =
    begin_values (codes "AT+UHTCRGH=") (digit session_id ∷ []) (codes "+UHTCRGH:") (codes "ds")

unfoldable http_delete_request1 : ℤ → ApiCall
http_delete_request1 session_id = exec_cmd (codes "AT+UHTCRD=") (digit session_id ∷ [])

unfoldable http_delete_request2 : ℤ → Bytes → ApiCall
http_delete_request2 session_id byte_array_data =
    exec_cmd (codes "AT+UHTCRD=") (digit session_id ∷ binary_string byte_array_data ∷ [])

unfoldable http_get_delete_request_header_begin : ℤ → OpenCall
http_get_delete_request_header_begin session_id =
    begin_values (codes "AT+UHTCRDH=") (digit session_id ∷ []) (codes "+UHTCRDH:") (codes "ds")

unfoldable http_post_request : ℤ → ℤ → Bytes → ApiCall
http_post_request junk session_id binary_data =
    get_number junk (codes "AT+UHTCRPOB=") (digit session_id ∷ binary binary_data ∷ [])
      (codes "+UHTCRPOB:") (codes "-d")

unfoldable http_get_post_request_header_begin : ℤ → OpenCall
http_get_post_request_header_begin session_id =
    begin_values (codes "AT+UHTCRPOH=") (digit session_id ∷ []) (codes "+UHTCRPOH:") (codes "ds")

unfoldable http_put_request : ℤ → ℤ → Bytes → ApiCall
http_put_request junk session_id binary_data =
    get_number junk (codes "AT+UHTCRPUB=") (digit session_id ∷ binary binary_data ∷ [])
      (codes "+UHTCRPUB:") (codes "-d")

unfoldable http_get_put_request_header_begin : ℤ → OpenCall
http_get_put_request_header_begin session_id =
    begin_values (codes "AT+UHTCRPUH=") (digit session_id ∷ []) (codes "+UHTCRPUH:") (codes "ds")
