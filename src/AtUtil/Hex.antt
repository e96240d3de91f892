-- ===== src/AtUtil/Hex.antt =====
-- The hex conversions of src/u_cx_at_util.c.
pub mod Digits
pub mod Decode
pub mod RoundTrip
use ucxclient.Prelude.{
  ℕ, zero, suc, ◌+◌, ◌-◌, ◌*◌, ◌/◌, ◌%◌, ◌≡◌, refl, Bool, true, false, Option, none, some, List, [],
  ◌∷◌, ◌++◌, ◌&&◌, bit_or, bit_and, arith, Bytes, codes, ltb, leb, if◌then◌else◌, get_or, take,
  replicate,
}

-- `nibbleToHex`
unfoldable pub nibble_to_hex : ℕ → ℕ
nibble_to_hex nibble = if ltb nibble 10 then b'0' + nibble else b'A' + nibble - 10

-- `hexToNibble`; `none` is the negative result.
unfoldable pub hex_to_nibble : ℕ → Option ℕ
hex_to_nibble c =
    if leb b'0' c && leb c b'9'
    then some (c - b'0')
    else if leb b'a' c && leb c b'f'
    then some (c - b'a' + 10)
    else if leb b'A' c && leb c b'F'
    then some (c - b'A' + 10)
    else none

-- `uCxAtUtilByteToHex`: the three bytes written to the output, the terminator last.
unfoldable pub byte_to_hex : ℕ → Bytes
unfolding nibble_to_hex
byte_to_hex byte = nibble_to_hex (byte / 16) ∷ nibble_to_hex (bit_and byte 0xF) ∷ 0 ∷ []

-- `(high << 4) | low`
unfoldable pub join_nibbles : ℕ → ℕ → ℕ
join_nibbles high low = bit_or (high * 16) low

-- `uCxAtUtilHexToByte` at the two characters it reads; `none` is the negative result.
unfoldable pub hex_to_byte : ℕ → ℕ → Option ℕ
hex_to_byte high_char low_char = elim (hex_to_nibble high_char) [
  | none ↦ none
  | some high ↦ elim (hex_to_nibble low_char) [
    | none ↦ none
    | some low ↦ some (join_nibbles high low)
  ]
]

-- `uCxAtUtilHexToBinary`: the bytes stored from `pBuf[0]` on, whose number is the result.
unfoldable pub hex_to_binary : Bytes → ℕ → Bytes
hex_to_binary [] size = []
hex_to_binary (high ∷ []) size = []
hex_to_binary (high ∷ low ∷ s) zero = []
hex_to_binary (high ∷ low ∷ s) (suc size) =
    let rest = hex_to_binary s size in elim (hex_to_byte high low) [ none ↦ [] | some b ↦ b ∷ rest ]

-- The loop of `binaryToHex`: `rounds` rounds from index `i` on.
unfoldable pub hex_loop : Bytes → Bool → ℕ → ℕ → ℕ → Bytes
hex_loop bytes backward len zero i = []
hex_loop bytes backward len (suc rounds) i =
    let byte = get_or bytes (if backward then len - i - 1 else i) 0 in
    nibble_to_hex (byte / 16)
    ∷ nibble_to_hex (bit_and byte 0x0F)
    ∷ hex_loop bytes backward len rounds (i + 1)

-- `strncpy`: the text cut or filled up with zeros to `size` bytes.
abbrev pub strncpy : Bytes → ℕ → Bytes
strncpy s size = take size (s ++ replicate size 0)

-- `binaryToHex`: the result and the bytes written from `pBuf[0]` on. `none` is a NULL `pData`.
unfoldable pub binary_to_hex_dir : Option Bytes → ℕ → ℕ → Bool → Bool × Bytes
binary_to_hex_dir source len size backward =
    if ltb size (2 * len + 1) then (false, 0 ∷ []) else elim source [
      | none ↦ (true, strncpy (codes "(null)") size)
      | some bytes ↦ (true, hex_loop bytes backward len len 0 ++ 0 ∷ [])
    ]

-- `uCxAtUtilBinaryToHex`
unfoldable pub binary_to_hex : Option Bytes → ℕ → ℕ → Bool × Bytes
binary_to_hex source len size = binary_to_hex_dir source len size false

-- `uCxAtUtilReverseBinaryToHex`
unfoldable pub reverse_binary_to_hex : Option Bytes → ℕ → ℕ → Bool × Bytes
reverse_binary_to_hex source len size = binary_to_hex_dir source len size true
