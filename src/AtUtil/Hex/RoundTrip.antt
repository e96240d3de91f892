-- ===== src/AtUtil/Hex/RoundTrip.antt =====
-- What binary_to_hex writes, and that hex_to_binary reads it back.
use mathlib.Core.List.{reverse, reverse-cons, reverse-reverse}
use native.Mathlib.Nat.{zero-add, suc-add}
use ucxclient.Prelude.{
  ℕ, ◌+◌, ◌-◌, ◌*◌, ◌/◌, ◌≡◌, ◌≢◌, refl, NoNul, c_string, c_string-append, ap, sym, ◌∙◌, true,
  false, some, [], ◌∷◌, ◌++◌, append_assoc, append-nil, bit_and, arith, Bytes, All, IsByte, length,
  length-append, get_or, if◌then◌else◌, ltb,
}
use ucxclient.AtUtil.Hex.{
  nibble_to_hex, hex_to_binary, hex_loop, binary_to_hex, reverse_binary_to_hex, binary_to_hex_dir,
}
use ucxclient.AtUtil.Hex.Digits.{hex_to_byte-nibbles}

-- The two digits of a byte.
abbrev pub hex_pair : ℕ → Bytes
hex_pair b = nibble_to_hex (b / 16) ∷ nibble_to_hex (bit_and b 0x0F) ∷ []

-- The digits of a byte string, with no index arithmetic: what the loop is compared with.
abbrev pub hex_text : Bytes → Bytes
hex_text [] = []
hex_text (b ∷ bytes) = nibble_to_hex (b / 16) ∷ nibble_to_hex (bit_and b 0x0F) ∷ hex_text bytes

pub get_or-append : (xs ys : Bytes) (y : ℕ) → get_or (xs ++ y ∷ ys) (length xs) 0 ≡ y
get_or-append [] ys y = refl
get_or-append (x ∷ xs) ys y = get_or-append xs ys y

-- The forward loop from the index behind `xs` writes the digits of what follows.
hex_loop-forward :
    (xs ys : Bytes) (len : ℕ) → hex_loop (xs ++ ys) false len (length ys) (length xs) ≡ hex_text ys
unfolding hex_loop
hex_loop-forward xs [] len = refl
hex_loop-forward xs (y ∷ ys) len = ground (
  arith,
  get_or-append xs ys y,
  hex_loop-forward (xs ++ y ∷ []) ys len,
  append_assoc xs (y ∷ []) ys,
  length-append xs (y ∷ []),
)

hex_loop-forward_all :
    (bytes : Bytes) → hex_loop bytes false (length bytes) (length bytes) 0 ≡ hex_text bytes
hex_loop-forward_all bytes = hex_loop-forward [] bytes (length bytes)

length-reverse : (xs : Bytes) → length (reverse xs) ≡ length xs
length-reverse [] = refl
length-reverse (x ∷ xs) =
    rw (reverse-cons x xs) (omega (arith, length-append (reverse xs) (x ∷ []), length-reverse xs))

reverse_shift : (z : ℕ) (zs xs : Bytes) → reverse (z ∷ zs) ++ xs ≡ reverse zs ++ z ∷ xs
reverse_shift z zs xs = rw reverse-cons (append_assoc (reverse zs) (z ∷ []) xs)

get_or-reverse : (zs xs : Bytes) (z k : ℕ) → k ≡ length zs → get_or (reverse zs ++ z ∷ xs) k 0 ≡ z
get_or-reverse zs xs z k e = rw (e, ← length-reverse zs) (get_or-append (reverse zs) xs z)

-- The backward loop, with `zs` the bytes still to be written, the next one first.
hex_loop-backward :
    (zs xs source : Bytes) (len i : ℕ)
    → len ≡ length zs + i
    → source ≡ reverse zs ++ xs
    → hex_loop source true len (length zs) i ≡ hex_text zs
unfolding hex_loop
hex_loop-backward [] xs source len i e q = refl
hex_loop-backward (z ∷ zs) xs source len i e q =
    let q' : source ≡ reverse zs ++ z ∷ xs = q ∙ reverse_shift z zs xs in
    let got : get_or source (len - i - 1) 0 ≡ z =
      rw q' (get_or-reverse zs xs z (len - i - 1) (omega arith)) in
    let rest : hex_loop source true len (length zs) (i + 1) ≡ hex_text zs =
      hex_loop-backward zs (z ∷ xs) source len (i + 1) (omega arith) q' in
    rw (got, rest)

hex_loop-backward_all :
    (bytes : Bytes) → hex_loop bytes true (length bytes) (length bytes) 0 ≡ hex_text (reverse bytes)
hex_loop-backward_all bytes = rw (← length-reverse bytes) (
    hex_loop-backward (reverse bytes) [] bytes (length (reverse bytes)) 0 (omega arith)
      (rw (reverse-reverse, append-nil)))

pub length-hex_text : (bytes : Bytes) → length (hex_text bytes) ≡ 2 * length bytes
length-hex_text [] = refl
length-hex_text (b ∷ bytes) = omega (arith, length-hex_text bytes)

pub binary_to_hex_lem :
    (bytes : Bytes) (size : ℕ)
    → (binary_to_hex (some bytes) (length bytes) size ≡ (
        if ltb size (2 * length bytes + 1)
        then (false, 0 ∷ [])
        else (true, hex_text bytes ++ 0 ∷ [])))
      × (reverse_binary_to_hex (some bytes) (length bytes) size ≡ (
          if ltb size (2 * length bytes + 1)
          then (false, 0 ∷ [])
          else (true, hex_text (reverse bytes) ++ 0 ∷ [])))
unfolding binary_to_hex reverse_binary_to_hex binary_to_hex_dir
binary_to_hex_lem bytes size = (rw hex_loop-forward_all, rw hex_loop-backward_all)

pub hex_to_binary-hex_text :
    (bytes rest : Bytes) (room : ℕ)
    → All IsByte bytes
    → hex_to_binary (hex_text bytes ++ rest) (length bytes + room)
      ≡ bytes ++ hex_to_binary rest room
unfolding hex_to_binary
hex_to_binary-hex_text [] rest room h = rw zero-add
hex_to_binary-hex_text (b ∷ bytes) rest room (hb, hs) =
    rw (suc-add, hex_to_binary, hex_to_byte-nibbles b hb, hex_to_binary-hex_text bytes rest room hs)

nibble_to_hex-ne-zero : (n : ℕ) → nibble_to_hex n ≢ 0
unfolding nibble_to_hex
nibble_to_hex-ne-zero n = ground arith

pub hex_text-NoNul : (bytes : Bytes) → NoNul (hex_text bytes)
hex_text-NoNul [] = tt
hex_text-NoNul (b ∷ bytes) =
    (nibble_to_hex-ne-zero _, (nibble_to_hex-ne-zero _, hex_text-NoNul bytes))

-- What `uCxAtUtilHexToBinary` reads from the digits of a byte string is that byte string.
pub hex_to_binary-hex_text_self :
    (bytes : Bytes) → All IsByte bytes → hex_to_binary (hex_text bytes) (length bytes) ≡ bytes
unfolding hex_to_binary
hex_to_binary-hex_text_self bytes h =
    ap (λ s. hex_to_binary s (length bytes)) (sym (append-nil (hex_text bytes)))
    ∙ ap (hex_to_binary (hex_text bytes ++ [])) (omega arith)
    ∙ hex_to_binary-hex_text bytes [] 0 h
    ∙ append-nil bytes

-- For every byte string that `uCxAtUtilBinaryToHex` fits into a buffer, the string in that buffer
-- is converted back to the same bytes by `uCxAtUtilHexToBinary`, into a buffer of their number.
pub hex_to_binary-binary_to_hex :
    (bytes : Bytes) (size : ℕ) {out : Bytes}
    → All IsByte bytes
    → binary_to_hex (some bytes) (length bytes) size ≡ (true, out)
    → hex_to_binary (c_string out) (length bytes) ≡ bytes
hex_to_binary-binary_to_hex bytes size {out} h e =
    let text : out ≡ hex_text bytes ++ 0 ∷ [] = ground (arith, (binary_to_hex_lem bytes size).0) in
    rw (text, c_string-append (hex_text bytes) [] (hex_text-NoNul bytes))
      (hex_to_binary-hex_text_self bytes h)
