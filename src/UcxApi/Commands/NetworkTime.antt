-- ===== src/UcxApi/Commands/NetworkTime.antt =====
-- The functions of ucx_api/generated/u_cx_network_time.c.
use ucxclient.Prelude.{Bytes, codes, [], ◌∷◌}
use ucxclient.Prelude.Int.{ℤ}
use ucxclient.AtClient.Send.{digit, string}
use ucxclient.UcxApi.Call.{ApiCall, OpenCall, exec_cmd, get_values, begin_values}

unfoldable network_time_set_client_enabled : ℤ → ApiCall
network_time_set_client_enabled client_status =
    exec_cmd (codes "AT+UNTE=") (digit client_status ∷ [])

unfoldable network_time_get_client_enabled : ApiCall
network_time_get_client_enabled = get_values (codes "AT+UNTE?") [] (codes "+UNTE:") (codes "d")

unfoldable network_time_set_ntp_server : ℤ → Bytes → ApiCall
network_time_set_ntp_server ntp_server_id ntp_server_address =
    exec_cmd (codes "AT+UNTSC=") (digit ntp_server_id ∷ string ntp_server_address ∷ [])

unfoldable network_time_get_ntp_server_begin : OpenCall
network_time_get_ntp_server_begin =
    begin_values (codes "AT+UNTSC?") [] (codes "+UNTSC:") (codes "dsid")
