-- ===== src/AtClient/Send.antt =====
-- uCxAtClientSendCmdVaList of src/u_cx_at_client.c: the writes to the UART that make up a command. The
-- format string and its arguments are a list of parameters; characters of a format that stand for no
-- parameter are not modelled, nor are write errors, which the code does not look at.
pub mod Text
pub mod Safe
use ucxclient.Prelude.{
  ℕ, zero, suc, ◌+◌, ◌-◌, ◌/◌, ◌%◌, Bool, true, false, not, ◌&&◌, ◌||◌, Option, none, some, List,
  [], ◌∷◌, ◌++◌, Bytes, codes, length, take, drop, ltb, if◌then◌else◌, min,
}
use ucxclient.Prelude.Int.{ℤ}
use ucxclient.Prelude.Decimal.{show_ℤ}
use ucxclient.AtUtil.Hex.{binary_to_hex}
use ucxclient.AtUtil.Escape.{quote, write_esc_string}
use ucxclient.AtParams.Ip.{IpAddress, ip_address_to_string}
use ucxclient.AtParams.Addresses.{BtLeAddress, bd_address_to_string, mac_address_to_string}
use ucxclient.AtClient.State.{Exec, ran, failed_assert, ◌>>=◌}

-- The format characters with their arguments: d, l, s, $, i, m, b, B and h.
pub data Param : Type 0 where
  digit : ℤ → Param
  int_list : List ℤ → Param
  string binary_string : Bytes → Param
  ip_address : IpAddress → Param
  mac_address : Bytes → Param
  bd_address : BtLeAddress → Param
  binary hex : Bytes → Param

-- `U_IP_STRING_MAX_LENGTH_BYTES`, the size of the buffer that parameters are printed to.
abbrev pub buf_size : ℕ
buf_size = 42

-- The integers of a list behind the first, each written with the comma before it.
unfoldable pub send_integers : List ℤ → List Bytes
send_integers [] = codes "]" ∷ []
send_integers (value ∷ values) = (b',' ∷ show_ℤ value) ∷ send_integers values

unfoldable pub send_int_list : List ℤ → List Bytes
send_int_list [] = codes "[]" ∷ []
send_int_list (value ∷ values) = (b'[' ∷ show_ℤ value) ∷ send_integers values

-- A string, escaped if it fits the buffer then and as it is otherwise.
unfoldable pub send_string : Bytes → List Bytes
send_string s =
    let text = write_esc_string s buf_size in
    if ltb 0 (length text) then text ∷ [] else (quote ∷ []) ∷ s ∷ (quote ∷ []) ∷ []

-- An address that was printed, or not.
unfoldable pub send_printed : Option Bytes → Exec (List Bytes)
send_printed none = failed_assert
send_printed (some text) = if ltb 0 (length text) then ran (text ∷ []) else failed_assert

-- `U_CX_SOH_CHAR` and the length, high byte first.
unfoldable pub binary_header : ℕ → Bytes
binary_header len = 0x01 ∷ len / 256 % 256 ∷ len % 256 ∷ []

-- The loop over chunks of 20 bytes, on fuel.
unfoldable pub hex_chunks : ℕ → Bytes → Exec (List Bytes)
hex_chunks zero data_left = ran []
hex_chunks (suc fuel) [] = ran []
hex_chunks (suc fuel) (b ∷ more) =
    let n = min (length (b ∷ more)) 20 in
    let (ok, out) = binary_to_hex (some (b ∷ more)) n buf_size in
    if ok
    then (hex_chunks fuel (drop n (b ∷ more)) >>= λ chunks. ran (take (n + n) out ∷ chunks))
    else failed_assert

-- The cases of the switch, except for binary data.
unfoldable pub send_param : Param → Exec (List Bytes)
send_param (digit i) = ran (show_ℤ i ∷ [])
send_param (int_list values) = ran (send_int_list values)
send_param (string s) = ran (send_string s)
send_param (binary_string s) = ran (send_string s)
send_param (ip_address a) = send_printed (ip_address_to_string a buf_size)
send_param (mac_address a) = send_printed (mac_address_to_string a buf_size)
send_param (bd_address a) = send_printed (bd_address_to_string a buf_size)
send_param (binary bytes) =
    if ltb 0 (length bytes) then ran (binary_header (length bytes) ∷ bytes ∷ []) else failed_assert
send_param (hex bytes) = hex_chunks (length bytes) bytes

abbrev pub is_binary : Param → Bool
is_binary (binary bytes) = true
is_binary p = false

abbrev pub is_nil : List Param → Bool
is_nil [] = true
is_nil (p ∷ params) = false

-- The loop over the format, behind its start or not: the writes, and whether binary data ended it.
unfoldable pub send_params : Bool → List Param → Exec (List Bytes × Bool)
send_params started [] = ran ([], false)
send_params started (p ∷ params) = send_param p >>= λ chunks.
    if is_binary p && not (is_nil params)
    then failed_assert
    else (send_params true params >>= λ (more, ends). ran (
      (if started && not (is_binary p) then codes "," ∷ chunks ++ more else chunks ++ more),
      is_binary p || ends,
    ))

-- `uCxAtClientSendCmdVaList`: the writes.
unfoldable pub send_cmd : Bytes → List Param → Exec (List Bytes)
send_cmd cmd params = send_params false params >>= λ (chunks, ends).
    ran (cmd ∷ (if ends then chunks else chunks ++ codes "\r" ∷ []))
