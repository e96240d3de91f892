-- ===== src/UcxApi/Commands/Socket.antt =====
-- The functions of ucx_api/generated/u_cx_socket.c.
use ucxclient.Prelude.{Bytes, codes, [], ◌∷◌}
use ucxclient.Prelude.Int.{ℤ}
use ucxclient.AtClient.Send.{digit, string, binary}
use ucxclient.UcxApi.Call.{
  ApiCall, OpenCall, exec_cmd, get_values, begin_values, begin_cmd, next_values, get_number,
  get_binary,
}

unfoldable socket_create1 : ℤ → ApiCall
socket_create1 protocol =
    get_values (codes "AT+USOCR=") (digit protocol ∷ []) (codes "+USOCR:") (codes "d")

unfoldable socket_create2 : ℤ → ℤ → ApiCall
socket_create2 protocol pref_ip_ver =
    get_values (codes "AT+USOCR=") (digit protocol ∷ digit pref_ip_ver ∷ []) (codes "+USOCR:")
      (codes "d")

unfoldable socket_set_tls2 : ℤ → ℤ → ApiCall
socket_set_tls2 socket_handle tls_version =
    exec_cmd (codes "AT+USOTLS=") (digit socket_handle ∷ digit tls_version ∷ [])

unfoldable socket_set_tls3 : ℤ → ℤ → Bytes → ApiCall
socket_set_tls3 socket_handle tls_version ca_name =
    exec_cmd (codes "AT+USOTLS=") (digit socket_handle ∷ digit tls_version ∷ string ca_name ∷ [])

unfoldable socket_set_tls5 : ℤ → ℤ → Bytes → Bytes → Bytes → ApiCall
socket_set_tls5 socket_handle tls_version ca_name client_cert_name client_key_name =
    exec_cmd (codes "AT+USOTLS=") (
      digit socket_handle
      ∷ digit tls_version
      ∷ string ca_name
      ∷ string client_cert_name
      ∷ string client_key_name
      ∷ [])

unfoldable socket_get_tls_begin : ℤ → OpenCall
socket_get_tls_begin socket_handle =
    begin_values (codes "AT+USOTLS=") (digit socket_handle ∷ []) (codes "+USOTLS:") (codes "ddsss")

unfoldable socket_connect : ℤ → Bytes → ℤ → ApiCall
socket_connect socket_handle host_address remote_port =
    exec_cmd (codes "AT+USOC=") (digit socket_handle ∷ string host_address ∷ digit remote_port ∷ [])

unfoldable socket_set_read_mode : ℤ → ApiCall
socket_set_read_mode read_mode = exec_cmd (codes "AT+USORM=") (digit read_mode ∷ [])

unfoldable socket_get_read_mode : ApiCall
socket_get_read_mode = get_values (codes "AT+USORM?") [] (codes "+USORM:") (codes "d")

unfoldable socket_write : ℤ → ℤ → Bytes → ApiCall
socket_write junk socket_handle binary_data =
    get_number junk (codes "AT+USOWB=") (digit socket_handle ∷ binary binary_data ∷ [])
      (codes "+USOWB:") (codes "-d")

unfoldable socket_close : ℤ → ApiCall
socket_close socket_handle = exec_cmd (codes "AT+USOCL=") (digit socket_handle ∷ [])

unfoldable socket_read : ℤ → ℤ → Bytes → ApiCall
socket_read socket_handle length data_buf =
    get_binary (codes "AT+USORB=") (digit socket_handle ∷ digit length ∷ []) (codes "+USORB:")
      (codes "-") data_buf length

unfoldable socket_get_last_error : ApiCall
socket_get_last_error = get_values (codes "AT+USOE") [] (codes "+USOE:") (codes "d")

unfoldable socket_bind : ℤ → ℤ → ApiCall
socket_bind socket_handle local_port =
    exec_cmd (codes "AT+USOB=") (digit socket_handle ∷ digit local_port ∷ [])

unfoldable socket_listen1 : ℤ → ApiCall
socket_listen1 socket_handle = exec_cmd (codes "AT+USOL=") (digit socket_handle ∷ [])

unfoldable socket_listen2 : ℤ → ℤ → ApiCall
socket_listen2 socket_handle port =
    exec_cmd (codes "AT+USOL=") (digit socket_handle ∷ digit port ∷ [])

unfoldable socket_receive_from : ℤ → ℤ → Bytes → ApiCall
socket_receive_from socket_handle length data_buf =
    get_binary (codes "AT+USORFB=") (digit socket_handle ∷ digit length ∷ []) (codes "+USORFB:")
      (codes "-id") data_buf length

unfoldable socket_get_peer_address : ℤ → ApiCall
socket_get_peer_address socket_handle =
    get_values (codes "AT+USOPA=") (digit socket_handle ∷ []) (codes "+USOPA:") (codes "-id")

unfoldable socket_list_status_begin : OpenCall
socket_list_status_begin = begin_cmd (codes "AT+USOST?") []

unfoldable socket_list_status_get_next : OpenCall
socket_list_status_get_next = next_values (codes "+USOST:") (codes "ddd")

unfoldable socket_get_status : ℤ → ApiCall
socket_get_status socket_handle =
    get_values (codes "AT+USOST=") (digit socket_handle ∷ []) (codes "+USOST:") (codes "-dd")

unfoldable socket_set_option : ℤ → ℤ → ℤ → ApiCall
socket_set_option socket_handle option value =
    exec_cmd (codes "AT+USOO=") (digit socket_handle ∷ digit option ∷ digit value ∷ [])

unfoldable socket_get_option : ℤ → ℤ → ApiCall
socket_get_option socket_handle option =
    get_values (codes "AT+USOO=") (digit socket_handle ∷ digit option ∷ []) (codes "+USOO:")
      (codes "--d")

unfoldable socket_get_host_by_name : Bytes → ApiCall
socket_get_host_by_name host_name =
    get_values (codes "AT+USOH=") (string host_name ∷ []) (codes "+USOH:") (codes "i")
