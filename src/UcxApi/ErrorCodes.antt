-- ===== src/UcxApi/ErrorCodes.antt =====
-- The error names of ucx_api/generated/u_cx_error_codes.c.
use ucxclient.Prelude.{
  ℕ, zero, suc, Option, none, some, List, [], ◌∷◌, ◌++◌, Bytes, codes, ◌||◌, if◌then◌else◌,
}
use ucxclient.Prelude.Int.{ℤ, negsuc, ltb_ℤ}

-- `uCxErrorCode_t`
pub record ErrorCode : Type 0 where
  pub value : ℤ
  pub name : Bytes
  pub module_name : Bytes

abbrev entry : ℕ → Bytes → Bytes → ErrorCode
entry n name module_name = record { value = negsuc n; name = name; module_name = module_name }

abbrev common_errors : List ErrorCode
common_errors =
    entry 0 (codes "U_ERROR_COMMON_BSD_ERROR") (codes "Common")
    ∷ entry 1 (codes "U_ERROR_COMMON_NOT_INITIALISED") (codes "Common")
    ∷ entry 2 (codes "U_ERROR_COMMON_NOT_IMPLEMENTED") (codes "Common")
    ∷ entry 3 (codes "U_ERROR_COMMON_NOT_SUPPORTED") (codes "Common")
    ∷ entry 4 (codes "U_ERROR_COMMON_INVALID_PARAMETER") (codes "Common")
    ∷ entry 5 (codes "U_ERROR_COMMON_NO_MEMORY") (codes "Common")
    ∷ entry 6 (codes "U_ERROR_COMMON_NOT_RESPONDING") (codes "Common")
    ∷ entry 7 (codes "U_ERROR_COMMON_PLATFORM") (codes "Common")
    ∷ entry 8 (codes "U_ERROR_COMMON_TIMEOUT") (codes "Common")
    ∷ entry 9 (codes "U_ERROR_COMMON_DEVICE_ERROR") (codes "Common")
    ∷ entry 10 (codes "U_ERROR_COMMON_NOT_FOUND") (codes "Common")
    ∷ entry 11 (codes "U_ERROR_COMMON_INVALID_ADDRESS") (codes "Common")
    ∷ entry 12 (codes "U_ERROR_COMMON_TEMPORARY_FAILURE") (codes "Common")
    ∷ entry 13 (codes "U_ERROR_COMMON_AUTHENTICATION_FAILURE") (codes "Common")
    ∷ entry 14 (codes "U_ERROR_COMMON_OPERATION_IN_PROGRESS") (codes "Common")
    ∷ entry 15 (codes "U_ERROR_COMMON_NOT_CONNECTED") (codes "Common")
    ∷ entry 16 (codes "U_ERROR_COMMON_LIMIT_REACHED") (codes "Common")
    ∷ entry 17 (codes "U_ERROR_COMMON_ALREADY_CREATED") (codes "Common")
    ∷ entry 18 (codes "U_ERROR_COMMON_END_OF_TRANSMISSION") (codes "Common")
    ∷ entry 19 (codes "U_ERROR_COMMON_NOT_CONFIGURED") (codes "Common")
    ∷ entry 20 (codes "U_ERROR_COMMON_INVALID_RESPONSE") (codes "Common")
    ∷ entry 21 (codes "U_ERROR_COMMON_UNKNOWN") (codes "Common")
    ∷ []

abbrev at_errors : List ErrorCode
at_errors =
    entry 30 (codes "U_AT_STATUS_NOT_IMPLEMENTED") (codes "AT")
    ∷ entry 31 (codes "U_AT_STATUS_INVALID_COMMAND") (codes "AT")
    ∷ entry 32 (codes "U_AT_STATUS_INVALID_ARGUMENTS") (codes "AT")
    ∷ entry 33 (codes "U_AT_STATUS_INVALID_ARGUMENT_COUNT") (codes "AT")
    ∷ entry 34 (codes "U_AT_STATUS_INVALID_INT_ARG") (codes "AT")
    ∷ entry 35 (codes "U_AT_STATUS_INVALID_INT_RANGE") (codes "AT")
    ∷ entry 36 (codes "U_AT_STATUS_INVALID_STR_ARG") (codes "AT")
    ∷ entry 37 (codes "U_AT_STATUS_INVALID_STR_LENGTH") (codes "AT")
    ∷ entry 38 (codes "U_AT_STATUS_INVALID_ENUM_ARG") (codes "AT")
    ∷ entry 39 (codes "U_AT_STATUS_INVALID_IP_ADDR_ARG") (codes "AT")
    ∷ entry 40 (codes "U_AT_STATUS_INVALID_MAC_ADDR_ARG") (codes "AT")
    ∷ entry 41 (codes "U_AT_STATUS_INVALID_BD_ADDR_ARG") (codes "AT")
    ∷ entry 42 (codes "U_AT_STATUS_INVALID_BYTE_ARRAY_ARG") (codes "AT")
    ∷ entry 43 (codes "U_AT_STATUS_INVALID_BYTE_ARRAY_LENGTH") (codes "AT")
    ∷ entry 44 (codes "U_AT_STATUS_UNMATCHED_QUOTE") (codes "AT")
    ∷ entry 45 (codes "U_AT_STATUS_TIMEOUT") (codes "AT")
    ∷ entry 46 (codes "U_AT_STATUS_BIN_CMD_EXEC_AS_STD_CMD") (codes "AT")
    ∷ entry 47 (codes "U_AT_STATUS_INVALID_ESCAPE_CODE") (codes "AT")
    ∷ entry 48 (codes "U_AT_STATUS_INVALID_CHARACTER") (codes "AT")
    ∷ entry 49 (codes "U_AT_STATUS_INVALID_INT_LIST_ARG") (codes "AT")
    ∷ entry 50 (codes "U_AT_STATUS_INVALID_INT_LIST_LENGTH") (codes "AT")
    ∷ []

abbrev wi_fi_errors : List ErrorCode
wi_fi_errors =
    entry 59 (codes "U_ERROR_WIFI_AT") (codes "Wi-Fi")
    ∷ entry 60 (codes "U_ERROR_WIFI_NOT_CONFIGURED") (codes "Wi-Fi")
    ∷ entry 61 (codes "U_ERROR_WIFI_NOT_FOUND") (codes "Wi-Fi")
    ∷ entry 62 (codes "U_ERROR_WIFI_INVALID_MODE") (codes "Wi-Fi")
    ∷ entry 63 (codes "U_ERROR_WIFI_TEMPORARY_FAILURE") (codes "Wi-Fi")
    ∷ entry 64 (codes "U_ERROR_WIFI_ALREADY_CONNECTED") (codes "Wi-Fi")
    ∷ entry 65 (codes "U_ERROR_WIFI_ALREADY_CONNECTED_TO_SSID") (codes "Wi-Fi")
    ∷ entry 66 (codes "U_ERROR_WIFI_DISCONNECTED") (codes "Wi-Fi")
    ∷ entry 67 (codes "U_ERROR_WIFI_ALREADY_UP") (codes "Wi-Fi")
    ∷ entry 68 (codes "U_ERROR_WIFI_AP_NOT_STARTED") (codes "Wi-Fi")
    ∷ entry 69 (codes "U_ERROR_WIFI_IS_DOWN") (codes "Wi-Fi")
    ∷ entry 70 (codes "U_ERROR_WIFI_ALREADY_STARTED") (codes "Wi-Fi")
    ∷ []

abbrev gatt_errors : List ErrorCode
gatt_errors =
    entry 90 (codes "U_PORT_GATT_STATUS_INVALID_HANDLE") (codes "GATT")
    ∷ entry 91 (codes "U_PORT_GATT_STATUS_READ_NOT_PERMITTED") (codes "GATT")
    ∷ entry 92 (codes "U_PORT_GATT_STATUS_WRITE_NOT_PERMITTED") (codes "GATT")
    ∷ entry 93 (codes "U_PORT_GATT_STATUS_INVALID_PDU") (codes "GATT")
    ∷ entry 94 (codes "U_PORT_GATT_STATUS_AUTHENTICATION") (codes "GATT")
    ∷ entry 95 (codes "U_PORT_GATT_STATUS_NOT_SUPPORTED") (codes "GATT")
    ∷ entry 96 (codes "U_PORT_GATT_STATUS_INVALID_OFFSET") (codes "GATT")
    ∷ entry 97 (codes "U_PORT_GATT_STATUS_AUTHORIZATION") (codes "GATT")
    ∷ entry 98 (codes "U_PORT_GATT_STATUS_PREPARE_QUEUE_FULL") (codes "GATT")
    ∷ entry 99 (codes "U_PORT_GATT_STATUS_ATTRIBUTE_NOT_FOUND") (codes "GATT")
    ∷ entry 100 (codes "U_PORT_GATT_STATUS_ATTRIBUTE_NOT_LONG") (codes "GATT")
    ∷ entry 101 (codes "U_PORT_GATT_STATUS_ENCRYPTION_KEY_SIZE") (codes "GATT")
    ∷ entry 102 (codes "U_PORT_GATT_STATUS_INVALID_ATTRIBUTE_LEN") (codes "GATT")
    ∷ entry 103 (codes "U_PORT_GATT_STATUS_UNLIKELY") (codes "GATT")
    ∷ entry 104 (codes "U_PORT_GATT_STATUS_INSUFFICIENT_ENCRYPTION") (codes "GATT")
    ∷ entry 105 (codes "U_PORT_GATT_STATUS_UNSUPPORTED_GROUP_TYPE") (codes "GATT")
    ∷ entry 106 (codes "U_PORT_GATT_STATUS_INSUFFICIENT_RESOURCES") (codes "GATT")
    ∷ entry 107 (codes "U_PORT_GATT_STATUS_DB_OUT_OF_SYNC") (codes "GATT")
    ∷ entry 108 (codes "U_PORT_GATT_STATUS_VALUE_NOT_ALLOWED") (codes "GATT")
    ∷ entry 109 (codes "U_PORT_GATT_STATUS_WRITE_REQ_REJECTED") (codes "GATT")
    ∷ entry 110 (codes "U_PORT_GATT_STATUS_CCC_IMPROPER_CONF") (codes "GATT")
    ∷ entry 111 (codes "U_PORT_GATT_STATUS_PROCEDURE_IN_PROGRESS") (codes "GATT")
    ∷ entry 112 (codes "U_PORT_GATT_STATUS_OUT_OF_RANGE") (codes "GATT")
    ∷ entry 113 (codes "U_PORT_GATT_STATUS_UNKNOWN") (codes "GATT")
    ∷ []

abbrev http_errors : List ErrorCode
http_errors = entry 159 (codes "U_ERROR_HTTP_HEADER_NOT_READ") (codes "HTTP") ∷ []

abbrev socket_errors : List ErrorCode
socket_errors = entry 179 (codes "U_ERROR_SOCKET_ALREADY_BOUND") (codes "Socket") ∷ []

-- `gUCxErrorCodes`; the value of `entry n` is -(n + 1).
abbrev pub error_codes : List ErrorCode
error_codes =
    (common_errors
      ++ (at_errors ++ (wi_fi_errors ++ (gatt_errors ++ (http_errors ++ socket_errors)))))

-- `U_CX_ERROR_CODES_COUNT`
abbrev pub error_codes_count : ℕ
error_codes_count = 81

-- The loop of `pGetErrorCodeEntry`, with `rounds` entries still to be tried; `none` is NULL.
unfoldable pub find_entry : ℕ → List ErrorCode → ℤ → Option ErrorCode
find_entry zero entries code = none
find_entry (suc rounds) [] code = none
find_entry (suc rounds) (e ∷ entries) code =
    if ltb_ℤ e.value code || ltb_ℤ code e.value then find_entry rounds entries code else some e

-- `pGetErrorCodeEntry`
unfoldable pub get_error_code_entry : ℤ → Option ErrorCode
get_error_code_entry code = find_entry error_codes_count error_codes code

-- `uCxGetErrorName`
unfoldable pub get_error_name : ℤ → Option Bytes
get_error_name code = elim (get_error_code_entry code) [ none ↦ none | some e ↦ some e.name ]

-- `uCxGetErrorModule`
unfoldable pub get_error_module : ℤ → Option Bytes
get_error_module code = elim (get_error_code_entry code) [
  | none ↦ none
  | some e ↦ some e.module_name
]
