-- ===== src/UcxApi/Commands/General.antt =====
-- The functions of ucx_api/generated/u_cx_general.c.
use ucxclient.Prelude.{Bytes, codes, [], ◌∷◌}
use ucxclient.Prelude.Int.{ℤ}
use ucxclient.AtClient.Send.{digit, string}
use ucxclient.UcxApi.Call.{ApiCall, OpenCall, exec_cmd, begin_values}

unfoldable general_attention : ApiCall
general_attention = exec_cmd (codes "AT") []

unfoldable general_get_manufacturer_identification_begin : OpenCall
general_get_manufacturer_identification_begin =
    begin_values (codes "AT+GMI") [] (codes "") (codes "s")

unfoldable general_get_device_model_identification_begin : OpenCall
general_get_device_model_identification_begin =
    begin_values (codes "AT+GMM") [] (codes "") (codes "s")

unfoldable general_get_software_version_begin : OpenCall
general_get_software_version_begin = begin_values (codes "AT+GMR") [] (codes "") (codes "s")

unfoldable general_get_serial_number_begin : OpenCall
general_get_serial_number_begin = begin_values (codes "AT+GSN") [] (codes "") (codes "s")

unfoldable general_get_ident_info_begin : OpenCall
general_get_ident_info_begin = begin_values (codes "ATI9") [] (codes "") (codes "ss")

unfoldable general_get_type_code_begin : OpenCall
general_get_type_code_begin = begin_values (codes "ATI0") [] (codes "") (codes "s")

unfoldable general_set_greeting_text1 : ℤ → ApiCall
general_set_greeting_text1 greeting_mode = exec_cmd (codes "AT+CSGT=") (digit greeting_mode ∷ [])

unfoldable general_set_greeting_text2 : ℤ → Bytes → ApiCall
general_set_greeting_text2 greeting_mode text =
    exec_cmd (codes "AT+CSGT=") (digit greeting_mode ∷ string text ∷ [])

unfoldable general_get_greeting_text_begin : OpenCall
general_get_greeting_text_begin = begin_values (codes "AT+CSGT?") [] (codes "+CSGT:") (codes "ds")
