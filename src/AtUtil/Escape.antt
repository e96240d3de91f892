-- ===== src/AtUtil/Escape.antt =====
-- Escaping of AT strings in src/u_cx_at_util.c: escapeCharacter, unescapeString and
-- uCxAtUtilWriteEscString.
pub mod RoundTrip
pub mod Space
use ucxclient.Prelude.{
  ℕ, zero, suc, ◌+◌, ◌/◌, Bool, true, false, Option, none, some, [], ◌∷◌, ◌++◌, ◌&&◌, ◌||◌, bit_and,
  Bytes, ltb, leb, ◌==◌, if◌then◌else◌, length,
}
use ucxclient.AtUtil.Hex.{nibble_to_hex, hex_to_nibble, join_nibbles}

abbrev pub backslash : ℕ
backslash = b'\\'

abbrev pub quote : ℕ
quote = 0x22

-- `isprint` of the C locale
abbrev pub isprint : ℕ → Bool
isprint c = leb 0x20 c && leb c 0x7E

-- `escapeCharacter`: the bytes put into the escape buffer, whose number is the result.
unfoldable pub escape_character : ℕ → Bytes
escape_character c =
    if c == 0x0D
    then backslash ∷ b'r' ∷ []
    else if c == 0x0A
    then backslash ∷ b'n' ∷ []
    else if c == 0x09
    then backslash ∷ b't' ∷ []
    else if c == 0x08
    then backslash ∷ b'b' ∷ []
    else if c == quote
    then backslash ∷ quote ∷ []
    else if c == backslash
    then backslash ∷ backslash ∷ []
    else if c == 0
    then backslash ∷ b'0' ∷ []
    else if isprint c
    then c ∷ []
    else backslash ∷ b'x' ∷ nibble_to_hex (c / 16) ∷ nibble_to_hex (bit_and c 0xF) ∷ []

-- The case `x` of the switch in `unescapeString`, at the characters behind the `x`.
unfoldable pub unescape_hex : Bytes → Bytes × ℕ
unescape_hex (h ∷ l ∷ s) = elim (hex_to_nibble h) [
  | none ↦ (b'x' ∷ [], 1)
  | some high ↦ elim (hex_to_nibble l) [
    | none ↦ (b'x' ∷ [], 1)
    | some low ↦ (join_nibbles high low ∷ [], 3)
  ]
]
unescape_hex s = (b'x' ∷ [], 1)

-- The switch of `unescapeString` at the character behind a backslash.
unfoldable pub unescape_escape : ℕ → Bytes → Bytes × ℕ
unescape_escape d s =
    if d == b'r'
    then (0x0D ∷ [], 1)
    else if d == b'n'
    then (0x0A ∷ [], 1)
    else if d == b't'
    then (0x09 ∷ [], 1)
    else if d == b'b'
    then (0x08 ∷ [], 1)
    else if d == quote
    then (quote ∷ [], 1)
    else if d == backslash
    then (backslash ∷ [], 1)
    else if d == b'0'
    then (0 ∷ [], 1)
    else if d == b'x'
    then unescape_hex s
    else (backslash ∷ d ∷ [], 1)

-- One round of the loop of `unescapeString` at the character `c` with `s` behind it: the bytes
-- written, and the number of characters of `s` that the round reads too.
unfoldable pub unescape_round : ℕ → Bytes → Bytes × ℕ
unescape_round c [] = (c ∷ [], 0)
unescape_round c (d ∷ s) = if c == backslash then unescape_escape d s else (c ∷ [], 0)

-- The rounds, with the number of characters still to be passed over.
unfoldable pub unescape_loop : Bytes → ℕ → Bytes
unescape_loop [] skip = []
unescape_loop (c ∷ s) (suc skip) = unescape_loop s skip
unescape_loop (c ∷ s) zero = let (out, more) = unescape_round c s in out ++ unescape_loop s more

-- `unescapeString`: the bytes left in place of the string, whose number is the result.
unfoldable pub unescape_string : Bytes → Bytes
unescape_string s = unescape_loop s 0

-- The loop of `uCxAtUtilWriteEscString`, with `pos` the distance of `pWrite` from the buffer;
-- `none` is the early return.
unfoldable pub esc_loop : Bytes → ℕ → ℕ → Option Bytes
esc_loop [] pos size = some []
esc_loop (c ∷ s) pos size =
    let escaped = escape_character c in
    let rest = esc_loop s (pos + length escaped) size in
    if leb size (pos + length escaped + 1)
    then none
    else elim rest [ none ↦ none | some body ↦ some (escaped ++ body) ]

-- `uCxAtUtilWriteEscString`: the bytes of the buffer that the result counts.
unfoldable pub write_esc_string : Bytes → ℕ → Bytes
write_esc_string s size =
    if ltb size 3
    then []
    else elim (esc_loop s 1 size) [ none ↦ [] | some body ↦ quote ∷ (body ++ quote ∷ []) ]
