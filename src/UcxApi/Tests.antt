-- ===== src/UcxApi/Tests.antt =====
-- The application interface at concrete inputs.
use ucxclient.Prelude.{
  ◌≡◌, ◌≢◌, ◌⊎◌, inl, inr, refl, true, Option, none, some, List, [], ◌∷◌, ◌++◌, map, arith, Bytes,
  codes, replicate, All,
}
use ucxclient.Prelude.Int.{ℤ, pos, negsuc, ◌-ℤ◌}
use ucxclient.Prelude.Decimal.{
  show_ℤ, show_ℕ, decimal, read_long, read_sign, skip_spaces, scan_digits,
}
use ucxclient.AtUtil.ParamEnd.{find_param_end, scan_loop, scan_char, scan_end}
use ucxclient.AtUtil.ParamEnd.Split.{IsComplete}
use ucxclient.ParamParser.{
  digit_arg, string_arg, parse_params, parse_loop, parse_param, parse_digit, clamp_long,
}
use ucxclient.ParamParser.RoundTrip.{params_text}
use ucxclient.AtClient.State.{Client, Exec, ran}
use ucxclient.AtClient.Uart.{Event, byte}
use ucxclient.AtClient.Rx.Receive.{Mode, text}
use ucxclient.AtClient.Send.{Param, digit, string}
use ucxclient.AtClient.Parse.{parse_line, empty_line, parse_response, is_expected}
use ucxclient.AtClient.Rx.{handle_rx_data, char_loop, parse_incoming_char, push_char, finish_line}
use ucxclient.AtClient.Command.{init, rsp_wait, cmd_get_rsp_param_line}
use ucxclient.AtClient.Command.Start.{init-TextMode, begun}
use ucxclient.UcxApi.Call.{Setting}
use ucxclient.UcxApi.Variant.{select, parse_variant}
use ucxclient.UcxApi.Selection.{parse_variant-selects}
use ucxclient.UcxApi.Locked.{wifi_station_get_ip_config_locks}
use ucxclient.UcxApi.Commands.WifiStation.{wifi_station_get_ip_config}
use ucxclient.UcxApi.Urc.{Urc, Callbacks, deliver}
use ucxclient.UcxApi.Urc.{uehtcrs, uebtc, locals}
use ucxclient.UcxApi.Urc.Parse.{parse_uebtc}
use ucxclient.UcxApi.Urc.Names.{urc_name, urc_format, registered, all_urcs}
use ucxclient.UcxApi.Urc.Register.{
  no_callbacks, http_register_request_status, bluetooth_register_bond_status,
  bluetooth_register_connect,
}
use ucxclient.UcxApi.Urc.Dispatch.{find_params, has_colon, urc_parse, urc_callback}
use ucxclient.UcxApi.Urc.Delivery.{urc_parse_cases, urc_callback_delivers}
use ucxclient.UcxApi.ErrorCodes.{find_entry, get_error_code_entry, get_error_name, get_error_module}

-- A new client.
abbrev client : Client
client = init (replicate 64 0) (replicate 16 0) (0 ∷ 0 ∷ [])

client-Mode : Mode client []
client-Mode = text (
    init-TextMode (replicate 64 0) (replicate 16 0) (0 ∷ 0 ∷ []) (omega arith) (omega arith)
      (omega arith))

abbrev setting : Setting
setting = record {
  now = pos 0;
  rsp_clock = pos 1 ∷ pos 20000 ∷ [];
  end_clock = pos 2 ∷ pos 20000 ∷ [];
  before = 0;
}

abbrev arrive : Bytes → List Event
arrive s = map byte s

abbrev two_values : List Event
two_values = arrive (codes "+UWSIP:0,1\r\n")

abbrev run : Exec (Option (Option Bytes × Client × List Event))
run =
    cmd_get_rsp_param_line (begun client (pos 0)) (some (codes "+UWSIP:")) [] none
      (pos 1 ∷ pos 20000 ∷ []) two_values

abbrev client_in : Exec (Option (Option Bytes × Client × List Event)) → Client
client_in (ran (some (line, c, unread))) = c
client_in m = client

run_responds :
    run ≡ ran (some (some (codes "0" ++ b',' ∷ codes "1"), client_in run, byte 0x0A ∷ []))
unfolding cmd_get_rsp_param_line init rsp_wait handle_rx_data char_loop parse_incoming_char
    parse_line empty_line push_char parse_response is_expected finish_line
run_responds = refl

zero_IsComplete : IsComplete (codes "0")
unfolding find_param_end scan_loop scan_char scan_end
zero_IsComplete = refl

wifi_station_get_ip_config_locks_example :
    (wifi_station_get_ip_config (pos 7) (pos 0) client setting two_values
      ≡ ran (
          some (record {
            chunks = codes "AT+UWSIP=" ∷ codes "0" ∷ codes "\r" ∷ [];
            result = pos 0;
            values = [];
            calls = [];
            client = client_in run;
          })))
    × ((client_in run).executing_cmd ≡ true)
    × ((client_in run).cmd_mutex ≡ true)
unfolding ◌-ℤ◌ init show_ℤ show_ℕ decimal
wifi_station_get_ip_config_locks_example =
    wifi_station_get_ip_config_locks client (pos 7) (pos 0) setting two_values [] (codes "0")
      (codes "1") (client_in run) (byte 0x0A ∷ []) client-Mode refl refl (inr (inl refl))
      zero_IsComplete run_responds

-- The form 2 of the response of uCxWifiStationStatusBegin.
abbrev forms : List (ℤ × Bytes)
forms = (pos 0, codes "ds") ∷ (pos 2, codes "dd") ∷ []

parse_variant-selects_example :
    parse_variant (codes "d") forms (pos 0) 0 (codes "2,5")
    ≡ some (pos 2, digit_arg (pos 2) ∷ digit_arg (pos 5) ∷ [])
unfolding show_ℤ show_ℕ decimal select
parse_variant-selects_example =
    parse_variant-selects forms (pos 0) (pos 2) (digit (pos 5)) [] 0
      ((omega arith, omega arith), ((omega arith, omega arith), tt)) (omega arith, tt)
      (omega arith, tt) refl

abbrev callbacks : Callbacks
callbacks = bluetooth_register_bond_status (http_register_request_status no_callbacks true) true

urc_parse_cases_example :
    ((u : Urc) × (codes "+UEBTB" ≡ urc_name u)
      × (urc_parse callbacks (codes "+UEBTB") 0 (codes "x")
          ≡ deliver (registered callbacks u) u (urc_format u) 0 (codes "x")))
    ⊎ (All (λ u. codes "+UEBTB" ≢ urc_name u) all_urcs
        × (urc_parse callbacks (codes "+UEBTB") 0 (codes "x") ≡ (negsuc 0, [])))
urc_parse_cases_example = urc_parse_cases callbacks (codes "+UEBTB") 0 (codes "x")

abbrev status : List Param
status = digit (pos 4) ∷ digit (pos 200) ∷ string (codes "a,b") ∷ []

urc_callback_delivers_example :
    urc_callback callbacks (codes "+UEHTCRS" ++ b':' ∷ params_text status) ≡ (
      pos 3,
      record {
        urc = uehtcrs;
        values =
            some (digit_arg (pos 4))
            ∷ some (digit_arg (pos 200))
            ∷ some (string_arg (codes "a,b"))
            ∷ [];
      }
          ∷ [],
    )
unfolding bluetooth_register_bond_status http_register_request_status
urc_callback_delivers_example = urc_callback_delivers callbacks uehtcrs status refl (
  (omega arith, omega arith),
  ((omega arith, omega arith), ((omega arith, (omega arith, (omega arith, tt))), tt)),
)

-- A URC that ends early calls its callback with variables that nothing has been stored to.
missing_value :
    urc_callback (bluetooth_register_connect no_callbacks true) (codes "+UEBTC:1")
    ≡ (pos 1, record { urc = uebtc; values = some (digit_arg (pos 1)) ∷ none ∷ [] } ∷ [])
unfolding urc_callback urc_parse find_params parse_uebtc deliver parse_params parse_loop
    find_param_end scan_loop scan_char scan_end parse_param parse_digit read_long read_sign
    skip_spaces scan_digits clamp_long locals bluetooth_register_connect no_callbacks has_colon
missing_value = refl

unknown_urc : urc_callback callbacks (codes "+UEXYZ:1") ≡ (negsuc 0, [])
unfolding urc_callback urc_parse find_params has_colon
unknown_urc = refl

error_name : get_error_name (negsuc 18) ≡ some (codes "U_ERROR_COMMON_END_OF_TRANSMISSION")
unfolding get_error_name get_error_code_entry find_entry
error_name = refl

error_name_unknown : get_error_name (pos 0) ≡ none
unfolding get_error_name get_error_code_entry find_entry
error_name_unknown = refl

error_module : get_error_module (negsuc 179) ≡ some (codes "Socket")
unfolding get_error_module get_error_code_entry find_entry
error_module = refl
