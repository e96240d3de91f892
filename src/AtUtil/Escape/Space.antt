-- ===== src/AtUtil/Escape/Space.antt =====
-- How much room the escaped text takes, and what it is made of.
use ucxclient.Prelude.{
  ℕ, zero, suc, ◌+◌, ◌/◌, ◌%◌, ◌≤◌, ◌<◌, ◌≡◌, inl, inr, ◌-◌, none, some, [], ◌∷◌, ◌++◌, arith,
  Bytes, All, All-append, IsByte, length, length-append, Bool-cases, ltb, if◌then◌else◌,
}
use ucxclient.AtUtil.Hex.{nibble_to_hex}
use ucxclient.AtUtil.Hex.Digits.{bit_and_mask}
use ucxclient.AtUtil.Escape.{
  quote, escape_character, unescape_hex, unescape_escape, unescape_round, unescape_loop,
  unescape_string, esc_loop, write_esc_string,
}
use ucxclient.AtUtil.Escape.RoundTrip.{escape_text}

-- The quoted form of a byte string.
abbrev pub quoted : Bytes → Bytes
quoted s = quote ∷ (escape_text s ++ quote ∷ [])

esc_loop_lem :
    (s : Bytes) (pos size : ℕ)
    → pos + 1 < size
    → esc_loop s pos size
      ≡ (if ltb (pos + length (escape_text s) + 1) size then some (escape_text s) else none)
unfolding esc_loop
esc_loop_lem [] pos size h = ground arith
esc_loop_lem (c ∷ s) pos size h = ground (
  arith,
  esc_loop_lem s (pos + length (escape_character c)) size,
  length-append (escape_character c) (escape_text s),
)

-- `uCxAtUtilWriteEscString` writes the quoted form exactly when the buffer is larger than it, by one
-- byte at least, and returns 0 otherwise.
pub write_esc_string_lem :
    (s : Bytes) (size : ℕ)
    → write_esc_string s size ≡ (if ltb (length (quoted s)) size then quoted s else [])
unfolding write_esc_string
write_esc_string_lem s size =
    ground (arith, esc_loop_lem s 1 size, length-append (escape_text s) (quote ∷ []))

-- A character that an AT command line can carry.
abbrev pub IsPrint : ℕ → Type 0
IsPrint c = (0x20 ≤ c) × (c ≤ 0x7E)

nibble_to_hex-IsPrint : (n : ℕ) → n < 16 → IsPrint (nibble_to_hex n)
unfolding nibble_to_hex
nibble_to_hex-IsPrint n h = ground arith

escape_character-IsPrint : (c : ℕ) → c < 256 → All IsPrint (escape_character c)
unfolding escape_character
escape_character-IsPrint c h =
    ground (arith, bit_and_mask c h, nibble_to_hex-IsPrint (c / 16), nibble_to_hex-IsPrint (c % 16))

escape_text-IsPrint : (s : Bytes) → All IsByte s → All IsPrint (escape_text s)
escape_text-IsPrint [] h = tt
escape_text-IsPrint (c ∷ s) (hc, hs) =
    All-append IsPrint (escape_character c) (escape_text s) (escape_character-IsPrint c hc)
      (escape_text-IsPrint s hs)

-- Whatever bytes it is given, what `uCxAtUtilWriteEscString` writes is printable, so it holds no zero
-- byte, no line end and no start of a binary transfer.
pub write_esc_string-IsPrint :
    (s : Bytes) (size : ℕ) → All IsByte s → All IsPrint (write_esc_string s size)
write_esc_string-IsPrint s size h = elim (Bool-cases (ltb (length (quoted s)) size)) [
  | inl e ↦
      rw (write_esc_string_lem, e)
        (
          omega arith,
          All-append IsPrint (escape_text s) (quote ∷ []) (escape_text-IsPrint s h) (omega arith),
        )
  | inr e ↦ rw (write_esc_string_lem, e) tt
]

length-escape_character : (c : ℕ) → length (escape_character c) ≤ 4
unfolding escape_character
length-escape_character c = ground arith

-- A round never writes more than it has read.
length-unescape_round :
    (c : ℕ) (s : Bytes)
    → let (out, more) = unescape_round c s in (length out ≤ more + 1) × (more ≤ length s)
unfolding unescape_round unescape_escape unescape_hex
length-unescape_round c [] = omega arith
length-unescape_round c (d ∷ []) = ground arith
length-unescape_round c (d ∷ h ∷ []) = ground arith
length-unescape_round c (d ∷ h ∷ l ∷ s) = ground arith

length-unescape_loop : (s : Bytes) (skip : ℕ) → length (unescape_loop s skip) ≤ length s - skip
unfolding unescape_loop
length-unescape_loop [] skip = omega arith
length-unescape_loop (c ∷ s) zero =
    let (out, more) = unescape_round c s in
    omega (
      arith,
      length-unescape_round c s,
      length-append out (unescape_loop s more),
      length-unescape_loop s more,
    )
length-unescape_loop (c ∷ s) (suc skip) = omega (arith, length-unescape_loop s skip)

-- `unescapeString` never makes a string longer, so what it writes stays inside the string's buffer.
pub length-unescape_string : (s : Bytes) → length (unescape_string s) ≤ length s
unfolding unescape_string
length-unescape_string s = omega (arith, length-unescape_loop s 0)
