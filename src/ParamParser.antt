-- ===== src/ParamParser.antt =====
-- uCxAtUtilParseParamsVaList of src/u_cx_at_util.c, and so uCxAtUtilParseParamsF: the parser of AT
-- parameters, and uCxAtUtilReplaceChar. The pointers that it stores through are the list of the
-- arguments stored, in their order; the caller gives one for each character of the format that takes
-- one, as every call in the repository does, so that the assertions hold. What a failed call has
-- stored is not kept.
pub mod Types
pub mod Rounds
pub mod Refusals
pub mod Plain
pub mod Bracketed
pub mod Printed
pub mod RoundTrip
mod Tests
use ucxclient.Prelude.{
  ℕ, zero, suc, ◌+◌, ◌-◌, ◌%◌, ◌^◌, Bool, true, false, not, ◌&&◌, ◌||◌, Option, none, some, List,
  [], ◌∷◌, ◌++◌, Bytes, length, take, drop, ltb, leb, ◌==◌, if◌then◌else◌,
}
use ucxclient.Prelude.Int.{ℤ, pos, negsuc, ltb_ℤ}
use ucxclient.Prelude.Decimal.{first, isdigit, read_long}
use ucxclient.AtUtil.Hex.{hex_to_byte}
use ucxclient.AtUtil.Escape.{quote, unescape_string}
use ucxclient.AtUtil.ParamEnd.{find_param_end}
use ucxclient.AtParams.Ip.{IpAddress, string_to_ip_address}
use ucxclient.AtParams.Addresses.{
  BtLeAddress, last_char, string_to_bd_address, string_to_mac_address,
}
use ucxclient.AtParams.IntList.{string_to_int_list}

-- What is stored for the format characters d, s, $, i, m, b, l and h.
pub data Arg : Type 0 where
  digit_arg : ℤ → Arg
  string_arg binary_string_arg : Bytes → Arg
  ip_arg : IpAddress → Arg
  mac_arg : Bytes → Arg
  bd_arg : BtLeAddress → Arg
  int_list_arg : List ℤ → Arg
  byte_array_arg : Bytes → Arg

-- `strtol` stops at the ends of a `long`, which has 32 bits as an `int32_t`.
unfoldable pub clamp_long : ℤ → ℤ
clamp_long v =
    if ltb_ℤ v (negsuc (2 ^ 31 - 1))
    then negsuc (2 ^ 31 - 1)
    else if ltb_ℤ (pos (2 ^ 31 - 1)) v
    then pos (2 ^ 31 - 1)
    else v

-- The case `d`.
unfoldable pub parse_digit : Bytes → Option ℤ
parse_digit s = elim (read_long s) [
  | none ↦ none
  | some (value, rest) ↦
      if not (first s == b'-') && not (isdigit (first s)) || not (first rest == 0)
      then none
      else some (clamp_long value)
]

-- A parameter with its last character overwritten by a terminator.
abbrev pub cut_last : Bytes → Bytes
cut_last s = take (length s - 1) s

-- The case `s`.
unfoldable pub parse_string : Bytes → Bytes
parse_string s =
    if first s == quote then unescape_string (cut_last (drop 1 s)) else unescape_string s

-- The case `$`.
unfoldable pub parse_binary_string : Bytes → Bytes
parse_binary_string s =
    if first s == quote
    then unescape_string (
        if ltb 0 (length (drop 1 s)) && last_char 0 (drop 1 s) == quote
        then cut_last (drop 1 s)
        else drop 1 s)
    else unescape_string s

-- The loop of the case `h`, whose stores stay behind what it reads.
unfoldable pub hex_pairs : Bytes → Option Bytes
hex_pairs [] = some []
hex_pairs (high ∷ []) = some []
hex_pairs (high ∷ low ∷ s) = elim (hex_to_byte high low) [
  | none ↦ none
  | some b ↦ elim (hex_pairs s) [ none ↦ none | some bytes ↦ some (b ∷ bytes) ]
]

-- The case `h`.
unfoldable pub parse_byte_array : Bytes → Option Bytes
parse_byte_array s = if not (length s % 2 == 0) then none else hex_pairs s

abbrev pub stored {ℓ} : {A : Type ℓ} → (A → Arg) → Option A → Option (List Arg)
stored f none = none
stored f (some a) = some (f a ∷ [])

-- The switch on a format character, at a parameter with the byte `before` in front of it; `none` is
-- the return of `-ret`.
unfoldable pub parse_param : ℕ → ℕ → Bytes → Option (List Arg)
parse_param ch before s =
    if ch == b'-'
    then some []
    else if ch == b'd'
    then stored digit_arg (parse_digit s)
    else if ch == b's'
    then some (string_arg (parse_string s) ∷ [])
    else if ch == b'$'
    then some (binary_string_arg (parse_binary_string s) ∷ [])
    else if ch == b'i'
    then stored ip_arg (string_to_ip_address s)
    else if ch == b'm'
    then stored mac_arg (string_to_mac_address s)
    else if ch == b'b'
    then stored bd_arg (string_to_bd_address before s)
    else if ch == b'l'
    then stored int_list_arg (string_to_int_list s)
    else if ch == b'h'
    then stored byte_array_arg (parse_byte_array s)
    else some []

-- The results `ret`, with what has been stored, and `-ret`.
pub data Parsed : Type 0 where
  parsed : ℕ → List Arg → Parsed
  failed : ℕ → Parsed

-- The result of a round's successors, with what the round has stored.
abbrev pub store_first : List Arg → Parsed → Parsed
store_first args (parsed ret more) = parsed ret (args ++ more)
store_first args (failed ret) = failed ret

-- The loop over the format, with the value of `ret` before the round.
unfoldable pub parse_loop : Bytes → ℕ → Bytes → ℕ → Parsed
parse_loop [] before s ret = parsed ret []
parse_loop (ch ∷ fmt) before s ret = elim (find_param_end s) [
  | none ↦ failed (ret + 1)
  | some n ↦
      let others = parse_loop fmt 0 (drop (n + 1) s) (ret + 1) in
      elim (parse_param ch before (take n s)) [
        | none ↦ failed (ret + 1)
        | some args ↦ if leb (length s) n then parsed (ret + 1) args else store_first args others
      ]
]

-- `uCxAtUtilParseParamsVaList`, on parameters with the byte `before` in front of them.
unfoldable pub parse_params : Bytes → ℕ → Bytes → Parsed
parse_params fmt before s = parse_loop fmt before s 0

-- `ret` as the functions return it.
abbrev pub result_of : Parsed → ℤ
result_of (parsed ret args) = pos ret
result_of (failed zero) = pos 0
result_of (failed (suc k)) = negsuc k

abbrev pub args_of : Parsed → List Arg
args_of (parsed ret args) = args
args_of (failed ret) = []

-- `uCxAtUtilReplaceChar`: the data, of which the first `data_len` bytes are gone over.
unfoldable pub replace_char : Bytes → ℕ → ℕ → ℕ → Bytes
replace_char s zero from to = s
replace_char [] (suc data_len) from to = []
replace_char (c ∷ s) (suc data_len) from to =
    (if c == from then to else c) ∷ replace_char s data_len from to
