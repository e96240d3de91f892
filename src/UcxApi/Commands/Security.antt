-- ===== src/UcxApi/Commands/Security.antt =====
-- The functions of ucx_api/generated/u_cx_security.c.
use ucxclient.Prelude.{Bytes, codes, [], ◌∷◌}
use ucxclient.Prelude.Int.{ℤ, pos}
use ucxclient.AtClient.Send.{digit, string, binary}
use ucxclient.UcxApi.Call.{ApiCall, OpenCall, exec_cmd, get_values, begin_cmd, next_values}
use ucxclient.UcxApi.Variant.{begin_variant}

unfoldable security_certificate_remove : ℤ → Bytes → ApiCall
security_certificate_remove cert_type name =
    exec_cmd (codes "AT+USECR=") (digit cert_type ∷ string name ∷ [])

unfoldable security_certificate_remove_all : ApiCall
security_certificate_remove_all = exec_cmd (codes "AT+USECR") []

unfoldable security_certificate_upload : ℤ → Bytes → Bytes → ApiCall
security_certificate_upload cert_type name binary_data =
    exec_cmd (codes "AT+USECUB=") (digit cert_type ∷ string name ∷ binary binary_data ∷ [])

unfoldable security_certificate_upload_pw : ℤ → Bytes → Bytes → Bytes → ApiCall
security_certificate_upload_pw cert_type name password binary_data =
    exec_cmd (codes "AT+USECUB=")
      (digit cert_type ∷ string name ∷ string password ∷ binary binary_data ∷ [])

unfoldable security_list_certificates_begin : OpenCall
security_list_certificates_begin = begin_cmd (codes "AT+USECL?") []

unfoldable security_list_certificates_get_next : OpenCall
security_list_certificates_get_next = next_values (codes "+USECL:") (codes "ds")

unfoldable security_read_all_certificates_details_begin : ℤ → Bytes → OpenCall
security_read_all_certificates_details_begin junk name =
    begin_variant (codes "AT+USECD=") (string name ∷ []) (codes "+USECD:") (codes "d")
      ((pos 0, codes "dh") ∷ (pos 1, codes "dd") ∷ []) junk

unfoldable security_read_certificates_details_begin : ℤ → Bytes → ℤ → OpenCall
security_read_certificates_details_begin junk name cert_detail_id =
    begin_variant (codes "AT+USECD=") (string name ∷ digit cert_detail_id ∷ []) (codes "+USECD:")
      (codes "d") ((pos 0, codes "dh") ∷ (pos 1, codes "dd") ∷ []) junk

unfoldable security_list_tls_extensions_begin : OpenCall
security_list_tls_extensions_begin = begin_cmd (codes "AT+USETE?") []

unfoldable security_list_tls_extensions_get_next : OpenCall
security_list_tls_extensions_get_next = next_values (codes "+USETE:") (codes "dd")

unfoldable security_set_tls_server_name_indication : ℤ → ApiCall
security_set_tls_server_name_indication enabled = exec_cmd (codes "AT+USETE0=") (digit enabled ∷ [])

unfoldable security_get_tls_server_name_indication : ApiCall
security_get_tls_server_name_indication =
    get_values (codes "AT+USETE0?") [] (codes "+USETE0:") (codes "d")

unfoldable security_set_tls_handshake_frag : ℤ → ApiCall
security_set_tls_handshake_frag enabled = exec_cmd (codes "AT+USETE1=") (digit enabled ∷ [])

unfoldable security_get_tls_handshake_frag : ApiCall
security_get_tls_handshake_frag = get_values (codes "AT+USETE1?") [] (codes "+USETE1:") (codes "d")
