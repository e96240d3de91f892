-- ===== src/UcxApi/Commands/Sps.antt =====
-- The functions of ucx_api/generated/u_cx_sps.c.
use ucxclient.Prelude.{Bytes, codes, [], ◌∷◌}
use ucxclient.Prelude.Int.{ℤ}
use ucxclient.AtClient.Send.{digit, binary}
use ucxclient.UcxApi.Call.{ApiCall, exec_cmd, get_values, get_number, get_binary}

unfoldable sps_connect1 : ℤ → ApiCall
sps_connect1 conn_handle = exec_cmd (codes "AT+USPSC=") (digit conn_handle ∷ [])

unfoldable sps_connect2 : ℤ → ℤ → ApiCall
sps_connect2 conn_handle flow_control =
    exec_cmd (codes "AT+USPSC=") (digit conn_handle ∷ digit flow_control ∷ [])

unfoldable sps_set_service_enable : ℤ → ApiCall
sps_set_service_enable service_option = exec_cmd (codes "AT+USPS=") (digit service_option ∷ [])

unfoldable sps_get_service_enable : ApiCall
sps_get_service_enable = get_values (codes "AT+USPS?") [] (codes "+USPS:") (codes "d")

unfoldable sps_write : ℤ → ℤ → Bytes → ApiCall
sps_write junk conn_handle binary_data =
    get_number junk (codes "AT+USPSWB=") (digit conn_handle ∷ binary binary_data ∷ [])
      (codes "+USPSWB:") (codes "-d")

unfoldable sps_set_data_mode : ℤ → ApiCall
sps_set_data_mode read_mode = exec_cmd (codes "AT+USPSRM=") (digit read_mode ∷ [])

unfoldable sps_get_data_mode : ApiCall
sps_get_data_mode = get_values (codes "AT+USPSRM?") [] (codes "+USPSRM:") (codes "d")

unfoldable sps_read : ℤ → ℤ → Bytes → ApiCall
sps_read conn_handle length data_buf =
    get_binary (codes "AT+USPSRB=") (digit conn_handle ∷ digit length ∷ []) (codes "+USPSRB:")
      (codes "-") data_buf length
