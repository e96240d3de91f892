-- ===== src/UcxApi/Commands/BluetoothSecurity.antt =====
-- The functions of ucx_api/generated/u_cx_bluetooth.c with these names.
use ucxclient.Prelude.{codes, [], ◌∷◌}
use ucxclient.Prelude.Int.{ℤ}
use ucxclient.AtParams.Addresses.{BtLeAddress}
use ucxclient.AtClient.Send.{digit, bd_address}
use ucxclient.UcxApi.Call.{ApiCall, OpenCall, exec_cmd, get_values, begin_cmd, next_values}

unfoldable bluetooth_set_io_capabilities : ℤ → ApiCall
bluetooth_set_io_capabilities io_cap = exec_cmd (codes "AT+UBTIOC=") (digit io_cap ∷ [])

unfoldable bluetooth_get_io_capabilities : ApiCall
bluetooth_get_io_capabilities = get_values (codes "AT+UBTIOC?") [] (codes "+UBTIOC:") (codes "d")

unfoldable bluetooth_set_security_mode : ℤ → ApiCall
bluetooth_set_security_mode security_mode = exec_cmd (codes "AT+UBTBSM=") (digit security_mode ∷ [])

unfoldable bluetooth_get_security_mode : ApiCall
bluetooth_get_security_mode = get_values (codes "AT+UBTBSM?") [] (codes "+UBTBSM:") (codes "d")

unfoldable bluetooth_set_pairing_mode : ℤ → ApiCall
bluetooth_set_pairing_mode pairing_mode = exec_cmd (codes "AT+UBTPM=") (digit pairing_mode ∷ [])

unfoldable bluetooth_get_pairing_mode : ApiCall
bluetooth_get_pairing_mode = get_values (codes "AT+UBTPM?") [] (codes "+UBTPM:") (codes "d")

unfoldable bluetooth_user_confirmation : BtLeAddress → ℤ → ApiCall
bluetooth_user_confirmation bd_addr confirm =
    exec_cmd (codes "AT+UBTUC=") (bd_address bd_addr ∷ digit confirm ∷ [])

unfoldable bluetooth_user_passkey_entry2 : BtLeAddress → ℤ → ApiCall
bluetooth_user_passkey_entry2 bd_addr confirm =
    exec_cmd (codes "AT+UBTUPE=") (bd_address bd_addr ∷ digit confirm ∷ [])

unfoldable bluetooth_user_passkey_entry3 : BtLeAddress → ℤ → ℤ → ApiCall
bluetooth_user_passkey_entry3 bd_addr confirm passkey =
    exec_cmd (codes "AT+UBTUPE=") (bd_address bd_addr ∷ digit confirm ∷ digit passkey ∷ [])

unfoldable bluetooth_bond : BtLeAddress → ApiCall
bluetooth_bond bd_addr = exec_cmd (codes "AT+UBTB=") (bd_address bd_addr ∷ [])

unfoldable bluetooth_list_bonded_devices_begin : OpenCall
bluetooth_list_bonded_devices_begin = begin_cmd (codes "AT+UBTBDL") []

unfoldable bluetooth_list_bonded_devices_get_next : OpenCall
bluetooth_list_bonded_devices_get_next = next_values (codes "+UBTBDL:") (codes "b")
