-- ===== src/UcxApi/Commands/Diagnostics.antt =====
-- The functions of ucx_api/generated/u_cx_diagnostics.c.
use ucxclient.Prelude.{Bytes, codes, [], ◌∷◌}
use ucxclient.Prelude.Int.{ℤ}
use ucxclient.AtParams.Ip.{IpAddress}
use ucxclient.AtClient.Send.{digit, string, ip_address}
use ucxclient.UcxApi.Call.{ApiCall, exec_cmd}

unfoldable diagnostics_ping1 : Bytes → ApiCall
diagnostics_ping1 destination = exec_cmd (codes "AT+UDGP=") (string destination ∷ [])

unfoldable diagnostics_ping2 : Bytes → ℤ → ApiCall
diagnostics_ping2 destination count =
    exec_cmd (codes "AT+UDGP=") (string destination ∷ digit count ∷ [])

unfoldable diagnostics_ping_stop : ApiCall
diagnostics_ping_stop = exec_cmd (codes "AT+UDGSP") []

unfoldable diagnostics_iperf2 : ℤ → ℤ → ApiCall
diagnostics_iperf2 iperf_action protocol_type =
    exec_cmd (codes "AT+UDGI=") (digit iperf_action ∷ digit protocol_type ∷ [])

unfoldable diagnostics_iperf5 : ℤ → ℤ → ℤ → ℤ → ℤ → ApiCall
diagnostics_iperf5 iperf_action protocol_type role port report_interval =
    exec_cmd (codes "AT+UDGI=") (
      digit iperf_action
      ∷ digit protocol_type
      ∷ digit role
      ∷ digit port
      ∷ digit report_interval
      ∷ [])

unfoldable diagnostics_iperf7 : ℤ → ℤ → ℤ → ℤ → ℤ → ℤ → IpAddress → ApiCall
diagnostics_iperf7 iperf_action protocol_type role port report_interval time_boundary ip_addr =
    exec_cmd (codes "AT+UDGI=") (
      digit iperf_action
      ∷ digit protocol_type
      ∷ digit role
      ∷ digit port
      ∷ digit report_interval
      ∷ digit time_boundary
      ∷ ip_address ip_addr
      ∷ [])

unfoldable diagnostics_iperf8 : ℤ → ℤ → ℤ → ℤ → ℤ → ℤ → IpAddress → ℤ → ApiCall
diagnostics_iperf8 iperf_action protocol_type role port report_interval time_boundary ip_addr
      length =
    exec_cmd (codes "AT+UDGI=") (
      digit iperf_action
      ∷ digit protocol_type
      ∷ digit role
      ∷ digit port
      ∷ digit report_interval
      ∷ digit time_boundary
      ∷ ip_address ip_addr
      ∷ digit length
      ∷ [])

unfoldable diagnostics_iperf9 : ℤ → ℤ → ℤ → ℤ → ℤ → ℤ → IpAddress → ℤ → ℤ → ApiCall
diagnostics_iperf9 iperf_action protocol_type role port report_interval time_boundary ip_addr length
      bandwidth =
    exec_cmd (codes "AT+UDGI=") (
      digit iperf_action
      ∷ digit protocol_type
      ∷ digit role
      ∷ digit port
      ∷ digit report_interval
      ∷ digit time_boundary
      ∷ ip_address ip_addr
      ∷ digit length
      ∷ digit bandwidth
      ∷ [])

unfoldable diagnostics_iperf10 : ℤ → ℤ → ℤ → ℤ → ℤ → ℤ → IpAddress → ℤ → ℤ → ℤ → ApiCall
diagnostics_iperf10 iperf_action protocol_type role port report_interval time_boundary ip_addr
      length bandwidth bidirectional =
    exec_cmd (codes "AT+UDGI=") (
      digit iperf_action
      ∷ digit protocol_type
      ∷ digit role
      ∷ digit port
      ∷ digit report_interval
      ∷ digit time_boundary
      ∷ ip_address ip_addr
      ∷ digit length
      ∷ digit bandwidth
      ∷ digit bidirectional
      ∷ [])
