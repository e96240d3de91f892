-- ===== src/UcxApi/Commands/System.antt =====
-- The functions of ucx_api/generated/u_cx_system.c.
use ucxclient.Prelude.{Bytes, codes, [], ◌∷◌}
use ucxclient.Prelude.Int.{ℤ}
use ucxclient.AtClient.Send.{digit, mac_address, hex}
use ucxclient.UcxApi.Call.{ApiCall, OpenCall, exec_cmd, get_values, begin_values}

unfoldable system_reboot : ApiCall
system_reboot = exec_cmd (codes "AT+CPWROFF") []

unfoldable system_start_serial_firmware_update1 : ℤ → ApiCall
system_start_serial_firmware_update1 baud_rate =
    exec_cmd (codes "AT+USYFWUS=") (digit baud_rate ∷ [])

unfoldable system_start_serial_firmware_update2 : ℤ → ℤ → ApiCall
system_start_serial_firmware_update2 baud_rate flow_control =
    exec_cmd (codes "AT+USYFWUS=") (digit baud_rate ∷ digit flow_control ∷ [])

unfoldable system_start_serial_firmware_update_default : ApiCall
system_start_serial_firmware_update_default = exec_cmd (codes "AT+USYFWUS") []

unfoldable system_start_boot_loader1 : ℤ → ApiCall
system_start_boot_loader1 baud_rate = exec_cmd (codes "AT+USYBL=") (digit baud_rate ∷ [])

unfoldable system_start_boot_loader2 : ℤ → ℤ → ApiCall
system_start_boot_loader2 baud_rate flow_control =
    exec_cmd (codes "AT+USYBL=") (digit baud_rate ∷ digit flow_control ∷ [])

unfoldable system_start_boot_loader_default : ApiCall
system_start_boot_loader_default = exec_cmd (codes "AT+USYBL") []

unfoldable system_store_configuration : ApiCall
system_store_configuration = exec_cmd (codes "AT&W") []

unfoldable system_get_local_address : ℤ → ApiCall
system_get_local_address interface_id =
    get_values (codes "AT+USYLA=") (digit interface_id ∷ []) (codes "+USYLA:") (codes "m")

unfoldable system_set_local_address : ℤ → Bytes → ApiCall
system_set_local_address interface_id address =
    exec_cmd (codes "AT+USYLA=") (digit interface_id ∷ mac_address address ∷ [])

unfoldable system_factory_reset : ApiCall
system_factory_reset = exec_cmd (codes "AT+USYFR") []

unfoldable system_default_settings : ApiCall
system_default_settings = exec_cmd (codes "AT+USYDS") []

unfoldable system_set_uart_settings1 : ℤ → ApiCall
system_set_uart_settings1 baud_rate = exec_cmd (codes "AT+USYUS=") (digit baud_rate ∷ [])

unfoldable system_set_uart_settings2 : ℤ → ℤ → ApiCall
system_set_uart_settings2 baud_rate flow_control =
    exec_cmd (codes "AT+USYUS=") (digit baud_rate ∷ digit flow_control ∷ [])

unfoldable system_set_uart_settings3 : ℤ → ℤ → ℤ → ApiCall
system_set_uart_settings3 baud_rate flow_control change_after_confirm =
    exec_cmd (codes "AT+USYUS=")
      (digit baud_rate ∷ digit flow_control ∷ digit change_after_confirm ∷ [])

unfoldable system_get_uart_settings : ApiCall
system_get_uart_settings = get_values (codes "AT+USYUS?") [] (codes "+USYUS:") (codes "dd")

unfoldable system_get_last_error_code : ApiCall
system_get_last_error_code = get_values (codes "AT+USYEC?") [] (codes "+USYEC:") (codes "d")

unfoldable system_set_extended_error : ℤ → ApiCall
system_set_extended_error extended_errors =
    exec_cmd (codes "AT+USYEE=") (digit extended_errors ∷ [])

unfoldable system_get_extended_error : ApiCall
system_get_extended_error = get_values (codes "AT+USYEE?") [] (codes "+USYEE:") (codes "d")

unfoldable system_set_unix_time : Bytes → ApiCall
system_set_unix_time unix_time = exec_cmd (codes "AT+USYTU=") (hex unix_time ∷ [])

unfoldable system_get_unix_time_begin : OpenCall
system_get_unix_time_begin = begin_values (codes "AT+USYTU?") [] (codes "+USYTU:") (codes "h")

unfoldable system_set_echo_off : ApiCall
system_set_echo_off = exec_cmd (codes "ATE0") []

unfoldable system_set_echo_on : ApiCall
system_set_echo_on = exec_cmd (codes "ATE1") []

unfoldable system_get_echo : ApiCall
system_get_echo = get_values (codes "ATE?") [] (codes "") (codes "d")

unfoldable system_set_esc_sequence_char : ℤ → ApiCall
system_set_esc_sequence_char escape_char = exec_cmd (codes "ATS2=") (digit escape_char ∷ [])

unfoldable system_get_esc_sequence_char : ApiCall
system_get_esc_sequence_char = get_values (codes "ATS2?") [] (codes "") (codes "d")

unfoldable system_set_line_term_char : ℤ → ApiCall
system_set_line_term_char line_term = exec_cmd (codes "ATS3=") (digit line_term ∷ [])

unfoldable system_get_line_term_char : ApiCall
system_get_line_term_char = get_values (codes "ATS3?") [] (codes "") (codes "d")

unfoldable system_set_rsp_format_char : ℤ → ApiCall
system_set_rsp_format_char resp_format = exec_cmd (codes "ATS4=") (digit resp_format ∷ [])

unfoldable system_get_rsp_format_char : ApiCall
system_get_rsp_format_char = get_values (codes "ATS4?") [] (codes "") (codes "d")

unfoldable system_set_backspace_char : ℤ → ApiCall
system_set_backspace_char backspace = exec_cmd (codes "ATS5=") (digit backspace ∷ [])

unfoldable system_get_backspace_char : ApiCall
system_get_backspace_char = get_values (codes "ATS5?") [] (codes "") (codes "d")

unfoldable system_set_esc_sequence_settings : ℤ → ℤ → ℤ → ApiCall
system_set_esc_sequence_settings pre_timeout post_timeout escape_timeout =
    exec_cmd (codes "AT+UTMES=")
      (digit pre_timeout ∷ digit post_timeout ∷ digit escape_timeout ∷ [])

unfoldable system_get_esc_sequence_settings : ApiCall
system_get_esc_sequence_settings = get_values (codes "AT+UTMES?") [] (codes "+UTMES:") (codes "ddd")
