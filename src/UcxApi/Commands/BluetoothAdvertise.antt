-- ===== src/UcxApi/Commands/BluetoothAdvertise.antt =====
-- The functions of ucx_api/generated/u_cx_bluetooth.c with these names.
use ucxclient.Prelude.{Bytes, codes, [], ◌∷◌}
use ucxclient.Prelude.Int.{ℤ}
use ucxclient.AtParams.Addresses.{BtLeAddress}
use ucxclient.AtClient.Send.{digit, bd_address, hex}
use ucxclient.UcxApi.Call.{ApiCall, OpenCall, exec_cmd, get_values, begin_values}

unfoldable bluetooth_get_advertise_information : ApiCall
bluetooth_get_advertise_information =
    get_values (codes "AT+UBTA?") [] (codes "+UBTA:") (codes "ddl")

unfoldable bluetooth_set_legacy_advertise_data : Bytes → ApiCall
bluetooth_set_legacy_advertise_data adv_data = exec_cmd (codes "AT+UBTADL=") (hex adv_data ∷ [])

unfoldable bluetooth_get_legacy_advertise_data_begin : OpenCall
bluetooth_get_legacy_advertise_data_begin =
    begin_values (codes "AT+UBTADL?") [] (codes "+UBTADL:") (codes "h")

unfoldable bluetooth_clear_legacy_advertise_data : ApiCall
bluetooth_clear_legacy_advertise_data = exec_cmd (codes "AT+UBTADLC") []

unfoldable bluetooth_set_scan_response_data : Bytes → ApiCall
bluetooth_set_scan_response_data scan_rsp_data =
    exec_cmd (codes "AT+UBTASD=") (hex scan_rsp_data ∷ [])

unfoldable bluetooth_get_scan_response_data_begin : OpenCall
bluetooth_get_scan_response_data_begin =
    begin_values (codes "AT+UBTASD?") [] (codes "+UBTASD:") (codes "h")

unfoldable bluetooth_clear_scan_response_data : ApiCall
bluetooth_clear_scan_response_data = exec_cmd (codes "AT+UBTASDC") []

unfoldable bluetooth_legacy_advertisement_start : ApiCall
bluetooth_legacy_advertisement_start = exec_cmd (codes "AT+UBTAL") []

unfoldable bluetooth_legacy_advertisement_stop : ApiCall
bluetooth_legacy_advertisement_stop = exec_cmd (codes "AT+UBTALD") []

unfoldable bluetooth_directed_advertisement_start1 : BtLeAddress → ApiCall
bluetooth_directed_advertisement_start1 bd_addr =
    exec_cmd (codes "AT+UBTAD=") (bd_address bd_addr ∷ [])

unfoldable bluetooth_directed_advertisement_start2 : BtLeAddress → ℤ → ApiCall
bluetooth_directed_advertisement_start2 bd_addr timeout =
    exec_cmd (codes "AT+UBTAD=") (bd_address bd_addr ∷ digit timeout ∷ [])

unfoldable bluetooth_directed_advertisement_stop : ApiCall
bluetooth_directed_advertisement_stop = exec_cmd (codes "AT+UBTADD") []

unfoldable bluetooth_set_legacy_advertisement_config : ℤ → ℤ → ApiCall
bluetooth_set_legacy_advertisement_config advertisement_interval_minimum
      advertisement_interval_maximum =
    exec_cmd (codes "AT+UBTALS=")
      (digit advertisement_interval_minimum ∷ digit advertisement_interval_maximum ∷ [])

unfoldable bluetooth_get_legacy_advertisement_config : ApiCall
bluetooth_get_legacy_advertisement_config =
    get_values (codes "AT+UBTALS?") [] (codes "+UBTALS:") (codes "dd")

unfoldable bluetooth_set_scan_interval : ℤ → ApiCall
bluetooth_set_scan_interval scan_interval = exec_cmd (codes "AT+UBTSS0=") (digit scan_interval ∷ [])

unfoldable bluetooth_get_scan_interval : ApiCall
bluetooth_get_scan_interval = get_values (codes "AT+UBTSS0?") [] (codes "+UBTSS0:") (codes "d")

unfoldable bluetooth_set_scan_window : ℤ → ApiCall
bluetooth_set_scan_window scan_window = exec_cmd (codes "AT+UBTSS1=") (digit scan_window ∷ [])

unfoldable bluetooth_get_scan_window : ApiCall
bluetooth_get_scan_window = get_values (codes "AT+UBTSS1?") [] (codes "+UBTSS1:") (codes "d")
