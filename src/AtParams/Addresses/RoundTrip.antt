-- ===== src/AtParams/Addresses/RoundTrip.antt =====
-- Printed Bluetooth and MAC addresses are read back.
use ucxclient.Prelude.{
  ℕ, ◌+◌, ◌*◌, ◌<◌, ◌≤◌, ◌≡◌, ◌≢◌, inl, inr, Bool-cases, refl, sym, ap, ◌∙◌, true, false, some, [],
  ◌∷◌, ◌++◌, append-nil, arith, Bytes, All, IsByte, c_string-append, length, ltb,
}
use ucxclient.AtUtil.Hex.{hex_to_binary, binary_to_hex}
use ucxclient.AtUtil.Hex.RoundTrip.{
  hex_text, length-hex_text, hex_text-NoNul, binary_to_hex_lem, hex_to_binary-hex_text,
}
use ucxclient.AtParams.Addresses.{
  BtLeAddress, BdAddressType, random, public, unknown, last_char, type_char, find_bd_address_type,
  string_to_bd_address, bd_address_to_string, string_to_mac_address, mac_address_to_string,
}

-- Six bytes are printed as their digits.
pub printed :
    (bytes : Bytes) (size : ℕ)
    → length bytes ≡ 6
    → 13 ≤ size
    → binary_to_hex (some bytes) 6 size ≡ (true, hex_text bytes ++ 0 ∷ [])
printed bytes size six room =
    let fits : ltb size (2 * length bytes + 1) ≡ false = ground (arith, six) in
    ap (λ n. binary_to_hex (some bytes) n size) (sym six)
    ∙ (binary_to_hex_lem bytes size).0
    ∙ rw fits refl

too_small :
    (bytes : Bytes) (size : ℕ)
    → length bytes ≡ 6
    → size < 13
    → binary_to_hex (some bytes) 6 size ≡ (false, 0 ∷ [])
too_small bytes size six short =
    let full : ltb size (2 * length bytes + 1) ≡ true = ground (arith, six) in
    ap (λ n. binary_to_hex (some bytes) n size) (sym six)
    ∙ (binary_to_hex_lem bytes size).0
    ∙ rw full refl

hex_to_binary-full : (s : Bytes) → hex_to_binary s 0 ≡ []
unfolding hex_to_binary
hex_to_binary-full [] = refl
hex_to_binary-full (c ∷ []) = refl
hex_to_binary-full (c ∷ d ∷ s) = refl

reads_six :
    (bytes rest : Bytes)
    → length bytes ≡ 6
    → All IsByte bytes
    → hex_to_binary (hex_text bytes ++ rest) 6 ≡ bytes
reads_six bytes rest six h =
    ap (hex_to_binary (hex_text bytes ++ rest)) (omega (arith, six))
    ∙ hex_to_binary-hex_text bytes rest 0 h
    ∙ ap (λ s. bytes ++ s) (hex_to_binary-full rest)
    ∙ append-nil bytes

-- The printed string.
mac_text :
    (mac : Bytes) (size : ℕ) {text : Bytes}
    → length mac ≡ 6
    → mac_address_to_string mac size ≡ some text
    → text ≡ hex_text mac
unfolding mac_address_to_string
mac_text mac size six e = elim (Bool-cases (ltb size 13)) [
  | inl short ↦ ground (arith, too_small mac size six (ground (arith, short)), e)
  | inr room ↦ ground (
    arith,
    printed mac size six (ground (arith, room)),
    c_string-append (hex_text mac) [] (hex_text-NoNul mac),
    e,
  )
]

-- Every MAC address that `uCxMacAddressToString` prints is read back by `uCxStringToMacAddress`.
pub string_to_mac_address-mac_address_to_string :
    (mac : Bytes) (size : ℕ) {text : Bytes}
    → length mac ≡ 6
    → All IsByte mac
    → mac_address_to_string mac size ≡ some text
    → string_to_mac_address text ≡ some mac
unfolding string_to_mac_address
string_to_mac_address-mac_address_to_string mac size {text} six h e =
    let t : text ≡ hex_text mac = mac_text mac size six e in
    let reads : hex_to_binary (hex_text mac) 6 ≡ mac =
      ap (λ s. hex_to_binary s 6) (sym (append-nil (hex_text mac))) ∙ reads_six mac [] six h in
    rw t (ground (arith, reads, six, length-hex_text mac))

pub last_char-append : (before : ℕ) (s : Bytes) (c : ℕ) → last_char before (s ++ c ∷ []) ≡ c
last_char-append before [] c = refl
last_char-append before (d ∷ s) c = last_char-append d s c

bd_text :
    (a : BtLeAddress) (size : ℕ) {text : Bytes}
    → length a.address ≡ 6
    → bd_address_to_string a size ≡ some text
    → text ≡ hex_text a.address ++ type_char a.type_of ∷ []
unfolding bd_address_to_string
bd_text a size six e = elim (Bool-cases (ltb size 14)) [
  | inl short ↦ ground (arith, e)
  | inr room ↦ ground (
    arith,
    printed a.address size six (ground (arith, room)),
    c_string-append (hex_text a.address) [] (hex_text-NoNul a.address),
    e,
  )
]

type_read :
    (before : ℕ) (t : BdAddressType) (s : Bytes)
    → t ≢ unknown
    → find_bd_address_type before (s ++ type_char t ∷ []) ≡ some t
unfolding find_bd_address_type
type_read before random s ne = rw (last_char-append before s (b'r')) refl
type_read before public s ne = rw (last_char-append before s (b'p')) refl
type_read before unknown s ne = absurd (ne refl)

-- Every Bluetooth address that `uCxBdAddressToString` prints, of a known type, is read back with its
-- type by `uCxStringToBdAddress`, whatever stands before the string in memory.
pub string_to_bd_address-bd_address_to_string :
    (a : BtLeAddress) (size before : ℕ) {text : Bytes}
    → length a.address ≡ 6
    → All IsByte a.address
    → a.type_of ≢ unknown
    → bd_address_to_string a size ≡ some text
    → string_to_bd_address before text ≡ some a
unfolding string_to_bd_address
string_to_bd_address-bd_address_to_string a size before {text} six h ne e =
    let t = bd_text a size six e in
    let kind : find_bd_address_type before text ≡ some a.type_of =
      rw t (type_read before a.type_of (hex_text a.address) ne) in
    let reads : hex_to_binary text 6 ≡ a.address =
      rw t (reads_six a.address (type_char a.type_of ∷ []) six h) in
    rw (kind, string_to_bd_address, reads, six) refl
