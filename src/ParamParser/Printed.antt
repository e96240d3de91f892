-- ===== src/ParamParser/Printed.antt =====
-- The texts of parameters that uCxAtClientSendCmdVaList sends, and what the parameter parser makes of
-- each of them alone.
use ucxclient.Prelude.{
  ℕ, ◌-◌, ◌^◌, ◌≡◌, ◌≢◌, refl, ap, sym, ◌∙◌, some, [], ◌∷◌, ◌++◌, arith, Bytes, All, IsByte,
  All-append, length, true, take, append-nil, length-append, take-append, c_string-append, ◌==◌,
  ◌||◌,
}
use ucxclient.Prelude.Int.{ℤ, pos, negsuc, ◌≤ℤ◌}
use ucxclient.Prelude.Decimal.{
  first, isdigit, show_ℕ, show_ℤ, read_long, first-show_ℕ, read_long-append,
}
use ucxclient.AtUtil.Hex.Digits.{hex_to_byte-nibbles}
use ucxclient.AtUtil.Hex.RoundTrip.{hex_text, length-hex_text, hex_text-NoNul}
use ucxclient.AtUtil.Escape.{quote}
use ucxclient.AtUtil.Escape.RoundTrip.{escape_text, unescape_string-escape_text}
use ucxclient.AtUtil.Escape.Space.{quoted}
use ucxclient.AtUtil.ParamEnd.Scan.{find_param_end-quoted}
use ucxclient.AtUtil.ParamEnd.Split.{IsComplete}
use ucxclient.AtParams.Ip.{v4, v6}
use ucxclient.AtParams.Addresses.{
  BtLeAddress, BdAddressType, random, public, unknown, type_char, mac_address_to_string,
  bd_address_to_string,
}
use ucxclient.AtParams.Ip.RoundTrip.{Words, ip_text, ip_text-reads_back}
use ucxclient.AtParams.Addresses.RoundTrip.{
  printed, last_char-append, string_to_mac_address-mac_address_to_string,
  string_to_bd_address-bd_address_to_string,
}
use ucxclient.AtClient.Send.{
  Param, digit, int_list, string, binary_string, ip_address, mac_address, bd_address, binary, hex,
  buf_size,
}
use ucxclient.ParamParser.{
  Arg, digit_arg, string_arg, binary_string_arg, ip_arg, mac_arg, bd_arg, int_list_arg,
  byte_array_arg, stored, clamp_long, parse_digit, cut_last, parse_string, parse_binary_string,
  hex_pairs, parse_byte_array, parse_param,
}
use ucxclient.AtParams.IntList.RoundTrip.{IsInt16, ints_text, string_to_int_list-ints_text}
use ucxclient.ParamParser.Bracketed.{ints_text-IsComplete, ipv6_text-IsComplete}
use ucxclient.ParamParser.Plain.{
  Plain, find_param_end-Plain, show_ℤ-Plain, hex_text-Plain, show_ipv4-Plain,
}

-- The format character of a parameter.
abbrev pub param_char : Param → ℕ
param_char (digit i) = b'd'
param_char (int_list values) = b'l'
param_char (string s) = b's'
param_char (binary_string s) = b'$'
param_char (ip_address a) = b'i'
param_char (mac_address a) = b'm'
param_char (bd_address a) = b'b'
param_char (binary bytes) = b'B'
param_char (hex bytes) = b'h'

-- What the parser is to store for it.
abbrev pub param_arg : Param → Arg
param_arg (digit i) = digit_arg i
param_arg (int_list values) = int_list_arg values
param_arg (string s) = string_arg s
param_arg (binary_string s) = binary_string_arg s
param_arg (ip_address a) = ip_arg a
param_arg (mac_address a) = mac_arg a
param_arg (bd_address a) = bd_arg a
param_arg (binary bytes) = byte_array_arg bytes
param_arg (hex bytes) = byte_array_arg bytes

-- Its text; binary data, which no format reads, are left out.
abbrev pub param_text : Param → Bytes
param_text (digit i) = show_ℤ i
param_text (int_list values) = ints_text values
param_text (string s) = quoted s
param_text (binary_string s) = quoted s
param_text (ip_address a) = ip_text a
param_text (mac_address a) = hex_text a
param_text (bd_address a) = hex_text a.address ++ type_char a.type_of ∷ []
param_text (binary bytes) = []
param_text (hex bytes) = hex_text bytes

-- The parameters whose text is read back: numbers of 32 bits, lists of numbers of 16 bits, strings of
-- any bytes, IP, MAC and Bluetooth addresses, the last of a known type, and byte arrays.
abbrev pub IsReadable : Param → Type 0
IsReadable (digit i) = (negsuc (2 ^ 31 - 1) ≤ℤ i) × (i ≤ℤ pos (2 ^ 31 - 1))
IsReadable (int_list values) = All IsInt16 values
IsReadable (string s) = All IsByte s
IsReadable (binary_string s) = All IsByte s
IsReadable (ip_address a) = Words a
IsReadable (mac_address a) = (length a ≡ 6) × All IsByte a
IsReadable (bd_address a) = (length a.address ≡ 6) × All IsByte a.address × (a.type_of ≢ unknown)
IsReadable (binary bytes) = ⊥
IsReadable (hex bytes) = All IsByte bytes

digit_first : (n : ℕ) → isdigit (first (show_ℕ n)) ≡ true
digit_first n = rw (← append-nil (show_ℕ n)) (first-show_ℕ n [])

read_long-show_ℤ : (v : ℤ) → read_long (show_ℤ v) ≡ some (v, [])
read_long-show_ℤ v = ap read_long (sym (append-nil (show_ℤ v))) ∙ read_long-append v [] refl

clamp_long_id : (v : ℤ) → IsReadable (digit v) → clamp_long v ≡ v
unfolding clamp_long
clamp_long_id v h = ground (arith, h)

show_ℤ-sign : (v : ℤ) → ((first (show_ℤ v) == b'-') || isdigit (first (show_ℤ v))) ≡ true
unfolding show_ℤ
show_ℤ-sign (pos n) = ground (arith, digit_first n)
show_ℤ-sign (negsuc n) = refl

parse_digit-show_ℤ : (v : ℤ) → IsReadable (digit v) → parse_digit (show_ℤ v) ≡ some v
unfolding parse_digit
parse_digit-show_ℤ v h = ground (arith, read_long-show_ℤ v, clamp_long_id v h, show_ℤ-sign v)

take_front : (s : Bytes) (c : ℕ) → cut_last (s ++ c ∷ []) ≡ s
take_front s c =
    ap (λ n. take n (s ++ c ∷ [])) (omega (arith, length-append s (c ∷ [])))
    ∙ take-append s (c ∷ [])

parse_string-quoted : (s : Bytes) → All IsByte s → parse_string (quoted s) ≡ s
unfolding parse_string
parse_string-quoted s h = rw (take_front (escape_text s) quote) (unescape_string-escape_text s h)

parse_binary_string-quoted : (s : Bytes) → All IsByte s → parse_binary_string (quoted s) ≡ s
unfolding parse_binary_string
parse_binary_string-quoted s h = ground (
  arith,
  length-append (escape_text s) (quote ∷ []),
  last_char-append 0 (escape_text s) quote,
  take_front (escape_text s) quote,
  unescape_string-escape_text s h,
)

hex_pairs-hex_text : (s : Bytes) → All IsByte s → hex_pairs (hex_text s) ≡ some s
unfolding hex_pairs
hex_pairs-hex_text [] h = refl
hex_pairs-hex_text (b ∷ s) (hb, hs) =
    ground (arith, hex_to_byte-nibbles b hb, hex_pairs-hex_text s hs)

parse_byte_array-hex_text : (s : Bytes) → All IsByte s → parse_byte_array (hex_text s) ≡ some s
unfolding parse_byte_array
parse_byte_array-hex_text s h = ground (arith, length-hex_text s, hex_pairs-hex_text s h)

pub mac_prints :
    (mac : Bytes) → length mac ≡ 6 → mac_address_to_string mac buf_size ≡ some (hex_text mac)
unfolding mac_address_to_string
mac_prints mac six = ground (
  arith,
  printed mac buf_size six (omega arith),
  c_string-append (hex_text mac) [] (hex_text-NoNul mac),
)

pub bd_prints :
    (a : BtLeAddress)
    → length a.address ≡ 6
    → bd_address_to_string a buf_size ≡ some (param_text (bd_address a))
unfolding bd_address_to_string
bd_prints a six = ground (
  arith,
  printed a.address buf_size six (omega arith),
  c_string-append (hex_text a.address) [] (hex_text-NoNul a.address),
)

type_char-Plain : (t : BdAddressType) → Plain (type_char t)
type_char-Plain random = omega arith
type_char-Plain public = omega arith
type_char-Plain unknown = omega arith

bd_text-Plain : (a : BtLeAddress) → All IsByte a.address → All Plain (param_text (bd_address a))
bd_text-Plain a h =
    All-append Plain (hex_text a.address) (type_char a.type_of ∷ []) (hex_text-Plain a.address h)
      (type_char-Plain a.type_of, tt)

-- The text of a readable parameter is one parameter by itself.
pub param_text-IsComplete : (p : Param) → IsReadable p → IsComplete (param_text p)
param_text-IsComplete (digit i) h = find_param_end-Plain _ (show_ℤ-Plain i)
param_text-IsComplete (int_list values) h = ints_text-IsComplete values
param_text-IsComplete (string s) h = (find_param_end-quoted s [] h).0
param_text-IsComplete (binary_string s) h = (find_param_end-quoted s [] h).0
param_text-IsComplete (ip_address (v4 a)) h = find_param_end-Plain _ (show_ipv4-Plain a)
param_text-IsComplete (ip_address (v6 w0 w1 w2 w3)) h = ipv6_text-IsComplete w0 w1 w2 w3
param_text-IsComplete (mac_address a) (six, h) = find_param_end-Plain _ (hex_text-Plain a h)
param_text-IsComplete (bd_address a) (six, h, ne) = find_param_end-Plain _ (bd_text-Plain a h)
param_text-IsComplete (binary bytes) h = absurd h
param_text-IsComplete (hex bytes) h = find_param_end-Plain _ (hex_text-Plain bytes h)

-- And the switch stores its value.
pub parse_param-param_text :
    (p : Param) (before : ℕ)
    → IsReadable p
    → parse_param (param_char p) before (param_text p) ≡ some (param_arg p ∷ [])
unfolding parse_param
parse_param-param_text (digit i) before h = ap (stored digit_arg) (parse_digit-show_ℤ i h)
parse_param-param_text (int_list values) before h =
    ap (stored int_list_arg) (string_to_int_list-ints_text values h)
parse_param-param_text (string s) before h =
    ap (λ t. some (string_arg t ∷ [])) (parse_string-quoted s h)
parse_param-param_text (binary_string s) before h =
    ap (λ t. some (binary_string_arg t ∷ [])) (parse_binary_string-quoted s h)
parse_param-param_text (ip_address a) before h = ap (stored ip_arg) (ip_text-reads_back a h)
parse_param-param_text (mac_address a) before (six, h) =
    ap (stored mac_arg)
      (string_to_mac_address-mac_address_to_string a buf_size six h (mac_prints a six))
parse_param-param_text (bd_address a) before (six, h, ne) =
    ap (stored bd_arg)
      (string_to_bd_address-bd_address_to_string a buf_size before six h ne (bd_prints a six))
parse_param-param_text (binary bytes) before h = absurd h
parse_param-param_text (hex bytes) before h =
    ap (stored byte_array_arg) (parse_byte_array-hex_text bytes h)
