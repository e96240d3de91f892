-- ===== src/AtParams/Ip.antt =====
-- IP addresses in src/u_cx_at_params.c. A parser's failure is `none`; the address that it has then
-- filled in part is not kept.
pub mod HexRoundTrip
pub mod RoundTrip
use ucxclient.Prelude.{
  ℕ, zero, suc, ◌+◌, ◌-◌, ◌*◌, ◌/◌, ◌%◌, ◌^◌, Bool, true, false, ◌&&◌, ◌||◌, not, Option, none,
  some, List, [], ◌∷◌, ◌++◌, Bytes, length, drop, ltb, leb, ◌==◌, if◌then◌else◌, min, get_or,
}
use ucxclient.Prelude.Decimal.{
  first, isdigit, scan_digits, long_max, show_ℕ, skip_spaces, read_sign,
}
use ucxclient.AtUtil.Hex.{hex_to_nibble}

-- `uSockIpAddress_t`: an IPv4 address, or the four words of an IPv6 address, `ipv6[0]` first.
pub data IpAddress : Type 0 where
  v4 : ℕ → IpAddress
  v6 : ℕ → ℕ → ℕ → ℕ → IpAddress

-- `addressStringIsIpv4`
unfoldable pub address_string_is_ipv4 : Bytes → Bool
address_string_is_ipv4 [] = false
address_string_is_ipv4 (c ∷ s) = c == b'.' || address_string_is_ipv4 s

-- The loop of `ipv4StringToIpAddress` with `rounds` numbers still to be read: the digits.
unfoldable pub ipv4_loop : ℕ → Bytes → Option Bytes
ipv4_loop zero s = some []
ipv4_loop (suc rounds) s =
    let (value, rest) = scan_digits 0 s in
    let others = ipv4_loop rounds (drop 1 rest) in
    if not (isdigit (first s))
    then none
    else if ltb 255 (min value long_max)
    then none
    else if not (first rest == (if rounds == 0 then 0 else b'.'))
    then none
    else elim others [ none ↦ none | some digits ↦ some (value ∷ digits) ]

-- `ipv4StringToIpAddress`. The digits stand in different bits, so that `|` is their sum.
unfoldable pub ipv4_string_to_ip_address : Bytes → Option IpAddress
ipv4_string_to_ip_address s = elim (ipv4_loop 4 s) [
  | none ↦ none
  | some digits ↦ some (
      v4 (
        get_or digits 0 0 * 2 ^ 24
        + get_or digits 1 0 * 2 ^ 16
        + get_or digits 2 0 * 2 ^ 8
        + get_or digits 3 0))
]

-- `strtol` in base 16 at digits: the number that they spell after `n`, and what follows them.
unfoldable pub scan_hex : ℕ → Bytes → ℕ × Bytes
scan_hex n [] = (n, [])
scan_hex n (c ∷ s) = elim (hex_to_nibble c) [
  | none ↦ (n, c ∷ s)
  | some digit ↦ scan_hex (n * 16 + digit) s
]

abbrev pub is_hex_digit : ℕ → Bool
is_hex_digit c = elim (hex_to_nibble c) [ none ↦ false | some digit ↦ true ]

-- The prefix `0x` of a hexadecimal number.
unfoldable pub skip_hex_prefix : Bytes → Bytes
skip_hex_prefix (z ∷ x ∷ d ∷ s) =
    if z == b'0' && ((x == b'x' || x == b'X') && is_hex_digit d) then d ∷ s else z ∷ x ∷ d ∷ s
skip_hex_prefix s = s

-- `(uint16_t)strtol(s, &rest, 16)` for numbers that a `long` holds. Where it finds no number it gives
-- 0 and the string.
unfoldable pub read_hex16 : Bytes → ℕ × Bytes
read_hex16 s =
    let (negative, digits) = read_sign (skip_spaces s) in
    let (n, rest) = scan_hex 0 (skip_hex_prefix digits) in
    if is_hex_digit (first digits)
    then ((if negative then (2 ^ 16 - n % 2 ^ 16) % 2 ^ 16 else n % 2 ^ 16), rest)
    else (0, s)

-- The last round of the loop of `ipv6StringToIpAddress`, behind the digits.
unfoldable pub ipv6_ends : Bool → Bytes → Bool
ipv6_ends block_char rest =
    if block_char then first rest == b']' && first (drop 1 rest) == 0 else first rest == 0

-- The loop of `ipv6StringToIpAddress` with `rounds` numbers still to be read: the digits.
unfoldable pub ipv6_loop : ℕ → Bool → Bytes → Option (List ℕ)
ipv6_loop zero block_char s = some []
ipv6_loop (suc rounds) block_char s =
    let (value, rest) = read_hex16 s in
    let others = ipv6_loop rounds block_char (drop 1 rest) in
    if first s == 0
    then none
    else if ltb (length rest + 4) (length s)
    then none
    else if not (if rounds == 0 then ipv6_ends block_char rest else first rest == b':')
    then none
    else elim others [ none ↦ none | some digits ↦ some (value ∷ digits) ]

-- `ipv6StringToIpAddress`
unfoldable pub ipv6_string_to_ip_address : Bytes → Option IpAddress
ipv6_string_to_ip_address s =
    let block_char = first s == b'[' in
    elim (ipv6_loop 8 block_char (if block_char then drop 1 s else s)) [
      | none ↦ none
      | some digits ↦ some (
          v6 (get_or digits 6 0 * 2 ^ 16 + get_or digits 7 0)
            (get_or digits 4 0 * 2 ^ 16 + get_or digits 5 0)
            (get_or digits 2 0 * 2 ^ 16 + get_or digits 3 0)
            (get_or digits 0 0 * 2 ^ 16 + get_or digits 1 0))
    ]

-- `uCxStringToIpAddress`; `none` is the result -1.
unfoldable pub string_to_ip_address : Bytes → Option IpAddress
string_to_ip_address s =
    if address_string_is_ipv4 s then ipv4_string_to_ip_address s else ipv6_string_to_ip_address s

-- `%x` of one digit
abbrev pub hex_digit : ℕ → ℕ
hex_digit d = if ltb d 10 then b'0' + d else b'a' + (d - 10)

-- `%04x` of a number of 16 bits
unfoldable pub show_hex4 : ℕ → Bytes
show_hex4 n =
    hex_digit (n / 2 ^ 12)
    ∷ hex_digit (n / 2 ^ 8 % 16)
    ∷ hex_digit (n / 2 ^ 4 % 16)
    ∷ hex_digit (n % 16)
    ∷ []

-- `%04x:%04x` of the halves of a word
unfoldable pub show_word : ℕ → Bytes
show_word w = show_hex4 (w / 2 ^ 16 % 2 ^ 16) ++ b':' ∷ show_hex4 (w % 2 ^ 16)

-- `%u.%u.%u.%u` of the bytes of a word; `& 0xFF` is the remainder by 256.
unfoldable pub show_ipv4 : ℕ → Bytes
show_ipv4 a =
    show_ℕ (a / 2 ^ 24 % 256)
    ++ (b'.' ∷ show_ℕ (a / 2 ^ 16 % 256)
        ++ (b'.' ∷ show_ℕ (a / 2 ^ 8 % 256) ++ (b'.' ∷ show_ℕ (a % 256))))

-- `uCxIpAddressToString`: the string, whose length is the result; `none` is the result -1.
unfoldable pub ip_address_to_string : IpAddress → ℕ → Option Bytes
ip_address_to_string (v4 a) size =
    if leb size (length (show_ipv4 a)) then none else some (show_ipv4 a)
ip_address_to_string (v6 w0 w1 w2 w3) size =
    if leb size 41
    then none
    else some (
        b'[' ∷ show_word w3
        ++ (b':' ∷ show_word w2 ++ (b':' ∷ show_word w1 ++ (b':' ∷ show_word w0 ++ b']' ∷ []))))
