-- ===== src/AtUtil/Escape/RoundTrip.antt =====
-- What unescapeString makes of escaped text.
use ucxclient.Prelude.{
  ℕ, ◌/◌, ◌%◌, ◌<◌, ◌≡◌, refl, ap, sym, ◌∙◌, [], ◌∷◌, ◌++◌, bit_and, arith, Bytes, All, IsByte,
  append_assoc, append-nil,
}
use ucxclient.AtUtil.Hex.{nibble_to_hex}
use ucxclient.AtUtil.Hex.Digits.{hex_to_nibble-nibble_to_hex, join_nibbles-split, bit_and_mask}
use ucxclient.AtUtil.Escape.{
  escape_character, unescape_hex, unescape_escape, unescape_round, unescape_loop, unescape_string,
}

-- Every byte of `s` escaped, one after the other.
abbrev pub escape_text : Bytes → Bytes
escape_text [] = []
escape_text (c ∷ s) = escape_character c ++ escape_text s

-- The two hex digits of a byte are read back.
unescape_hex-nibbles :
    (c : ℕ) (s : Bytes)
    → c < 256
    → unescape_hex (nibble_to_hex (c / 16) ∷ nibble_to_hex (bit_and c 0xF) ∷ s) ≡ (c ∷ [], 3)
unfolding unescape_hex
unescape_hex-nibbles c s h = ground (
  arith,
  bit_and_mask c h,
  hex_to_nibble-nibble_to_hex (c / 16),
  hex_to_nibble-nibble_to_hex (c % 16),
  join_nibbles-split c h,
)

-- The rounds on one escaped byte write that byte.
unescape_loop-escape_character :
    (c : ℕ) (s : Bytes)
    → c < 256
    → unescape_loop (escape_character c ++ s) 0 ≡ c ∷ unescape_loop s 0
unfolding escape_character unescape_loop unescape_round unescape_escape
unescape_loop-escape_character c s h = ground (arith, unescape_hex-nibbles c s h)

unescape_loop-escape_text :
    (s rest : Bytes)
    → All IsByte s
    → unescape_loop (escape_text s ++ rest) 0 ≡ s ++ unescape_loop rest 0
unescape_loop-escape_text [] rest h = refl
unescape_loop-escape_text (c ∷ s) rest (hc, hs) = rw append_assoc (
    unescape_loop-escape_character c (escape_text s ++ rest) hc
    ∙ ap (λ t. c ∷ t) (unescape_loop-escape_text s rest hs))

-- `unescapeString` gives back every byte string, zero bytes included, from its escaped text.
pub unescape_string-escape_text : (s : Bytes) → All IsByte s → unescape_string (escape_text s) ≡ s
unfolding unescape_string unescape_loop
unescape_string-escape_text s h =
    ap (λ t. unescape_loop t 0) (sym (append-nil (escape_text s)))
    ∙ unescape_loop-escape_text s [] h
    ∙ append-nil s
