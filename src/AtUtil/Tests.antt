-- ===== src/AtUtil/Tests.antt =====
-- The string utilities at concrete inputs.
use ucxclient.Prelude.{
  ◌≤◌, ◌≡◌, refl, ◌⊎◌, true, none, some, [], ◌∷◌, ◌++◌, arith, Bytes, codes, length, ltb,
  if◌then◌else◌, c_string, All, IsByte,
}
use ucxclient.AtUtil.Hex.{
  binary_to_hex, binary_to_hex_dir, hex_loop, nibble_to_hex, hex_to_binary, hex_to_byte,
  hex_to_nibble, join_nibbles, byte_to_hex,
}
use ucxclient.AtUtil.Hex.RoundTrip.{hex_to_binary-binary_to_hex}
use ucxclient.AtUtil.Hex.Decode.{Decodes, NoPair, hex_to_binary-Decodes}
use ucxclient.AtUtil.Escape.{
  write_esc_string, esc_loop, escape_character, unescape_string, unescape_loop, unescape_round,
  unescape_escape, unescape_hex,
}
use ucxclient.AtUtil.Escape.RoundTrip.{escape_text, unescape_string-escape_text}
use ucxclient.AtUtil.Escape.Space.{
  quoted, IsPrint, write_esc_string_lem, write_esc_string-IsPrint, length-unescape_string,
}
use ucxclient.AtUtil.ParamEnd.{find_param_end, scan_loop, scan_char, scan_end}
use ucxclient.AtUtil.ParamEnd.Scan.{find_param_end-quoted}

abbrev bytes : Bytes
bytes = 0x3F ∷ 0x00 ∷ 0xA1 ∷ []

abbrev bytes_text : Bytes
bytes_text = codes "3F00A1" ++ 0 ∷ []

binary_to_hex_run : binary_to_hex (some bytes) 3 7 ≡ (true, bytes_text)
unfolding binary_to_hex binary_to_hex_dir hex_loop nibble_to_hex
binary_to_hex_run = refl

null_run : binary_to_hex none 3 8 ≡ (true, codes "(null)" ++ 0 ∷ 0 ∷ [])
unfolding binary_to_hex binary_to_hex_dir
null_run = refl

hex_to_binary_run : hex_to_binary (codes "3f00z1") 8 ≡ 0x3F ∷ 0 ∷ []
unfolding hex_to_binary hex_to_byte hex_to_nibble join_nibbles
hex_to_binary_run = refl

byte_to_hex_run : byte_to_hex 0x3F ≡ codes "3F" ++ 0 ∷ []
unfolding byte_to_hex
byte_to_hex_run = refl

hex_to_binary-binary_to_hex_example : hex_to_binary (c_string bytes_text) 3 ≡ bytes
hex_to_binary-binary_to_hex_example =
    hex_to_binary-binary_to_hex bytes 7 (omega arith) binary_to_hex_run

hex_to_binary-Decodes_example :
    (rest : Bytes) × Decodes (codes "3f0") (hex_to_binary (codes "3f0") 8) rest
    × All IsByte (hex_to_binary (codes "3f0") 8)
    × (length (hex_to_binary (codes "3f0") 8) ≤ 8)
    × ((length (hex_to_binary (codes "3f0") 8) ≡ 8) ⊎ NoPair rest)
hex_to_binary-Decodes_example = hex_to_binary-Decodes (codes "3f0") 8

-- A quote, a comma, a line end, a zero byte and a byte that is not ASCII.
abbrev raw : Bytes
raw = 0x22 ∷ b',' ∷ 0x0A ∷ 0 ∷ 0xE5 ∷ []

write_run : write_esc_string raw 16 ≡ codes "\"\\\",\\n\\0\\xE5\""
unfolding write_esc_string esc_loop escape_character nibble_to_hex
write_run = refl

unescape_run : unescape_string (codes "a\\q\\x4\\x41\\") ≡ codes "a\\qx4A\\"
unfolding unescape_string unescape_loop unescape_round unescape_escape unescape_hex hex_to_nibble
    join_nibbles
unescape_run = refl

unescape_string-escape_text_example : unescape_string (escape_text raw) ≡ raw
unescape_string-escape_text_example = unescape_string-escape_text raw (omega arith)

write_esc_string_example :
    write_esc_string raw 14 ≡ (if ltb (length (quoted raw)) 14 then quoted raw else [])
write_esc_string_example = write_esc_string_lem raw 14

write_esc_string-IsPrint_example : All IsPrint (write_esc_string raw 42)
write_esc_string-IsPrint_example = write_esc_string-IsPrint raw 42 (omega arith)

length-unescape_string_example : length (unescape_string (codes "\\x41")) ≤ 4
length-unescape_string_example = length-unescape_string (codes "\\x41")

end_run : find_param_end (codes "[1,2],3") ≡ some 5
unfolding find_param_end scan_loop scan_char scan_end
end_run = refl

list_run : find_param_end (codes "[1,2]") ≡ some 5
unfolding find_param_end scan_loop scan_char scan_end
list_run = refl

unfinished_run : find_param_end (codes "\"ab,1") ≡ none
unfolding find_param_end scan_loop scan_char scan_end
unfinished_run = refl

find_param_end-quoted_example :
    (find_param_end (quoted raw) ≡ some (length (quoted raw)))
    × (find_param_end (quoted raw ++ b',' ∷ codes "1") ≡ some (length (quoted raw)))
find_param_end-quoted_example = find_param_end-quoted raw (codes "1") (omega arith)
