-- ===== src/AtParams/Addresses.antt =====
-- Bluetooth and MAC addresses in src/u_cx_at_params.c.
pub mod RoundTrip
use ucxclient.Prelude.{
  ℕ, suc, ◌+◌, ◌-◌, Bool, true, false, Option, none, some, [], ◌∷◌, ◌++◌, Bytes, c_string, length,
  ltb, ◌==◌, if◌then◌else◌,
}
use ucxclient.AtUtil.Hex.{hex_to_binary, binary_to_hex}

-- `uBdAddressType_t`
pub data BdAddressType : Type 0 where
  random public unknown : BdAddressType

-- `uBtLeAddress_t`
pub record BtLeAddress : Type 0 where
  pub address : Bytes
  pub type_of : BdAddressType

-- The last character of a string, or the byte before it if it is empty.
abbrev pub last_char : ℕ → Bytes → ℕ
last_char before [] = before
last_char before (c ∷ s) = last_char c s

-- `findBdAddressType`; `before` is the byte that stands before the string in memory.
unfoldable pub find_bd_address_type : ℕ → Bytes → Option BdAddressType
find_bd_address_type before s =
    let last = last_char before s in
    if last == b'r'
    then some random
    else if last == b'p'
    then some public
    else if length s == 12
    then some public
    else none

-- `uCxStringToBdAddress`; `none` is the result -1.
unfoldable pub string_to_bd_address : ℕ → Bytes → Option BtLeAddress
string_to_bd_address before s = elim (find_bd_address_type before s) [
  | none ↦ none
  | some type_of ↦
      let bytes = hex_to_binary s 6 in
      if length bytes == 6 then some (record { address = bytes; type_of = type_of }) else none
]

abbrev pub type_char : BdAddressType → ℕ
type_char random = b'r'
type_char public = b'p'
type_char unknown = b'p'

-- `uCxBdAddressToString`: the string, whose length is the result; `none` is the result -1.
unfoldable pub bd_address_to_string : BtLeAddress → ℕ → Option Bytes
bd_address_to_string a size =
    if ltb size 14
    then none
    else (let (ok, out) = binary_to_hex (some a.address) 6 size in
        if ok then some (c_string out ++ type_char a.type_of ∷ []) else none)

-- `uCxStringToMacAddress`; `none` is the result -1.
unfoldable pub string_to_mac_address : Bytes → Option Bytes
string_to_mac_address s =
    let bytes = hex_to_binary s 6 in
    if length s == 12 then (if length bytes == 6 then some bytes else none) else none

-- `uCxMacAddressToString`: the string, whose length is the result; `none` is the result -1.
unfoldable pub mac_address_to_string : Bytes → ℕ → Option Bytes
mac_address_to_string mac size =
    let (ok, out) = binary_to_hex (some mac) 6 size in if ok then some (c_string out) else none
