-- ===== src/AtClient/Send/Text.antt =====
-- What the writes of a command spell.
use ucxclient.Prelude.{
  ℕ, zero, suc, ◌+◌, ◌*◌, ◌≤◌, ◌≡◌, refl, ap, sym, ◌∙◌, true, false, some, List, [], ◌∷◌, ◌++◌,
  append_assoc, arith, Bytes, length, length-append, length-take, take, drop, take-append-drop, ltb,
  min,
}
use ucxclient.AtUtil.Hex.{binary_to_hex, binary_to_hex_dir, hex_loop}
use ucxclient.AtUtil.Hex.RoundTrip.{hex_text, length-hex_text, get_or-append}
use ucxclient.AtClient.Parse.Safe.{Returns, returned, Returns->>=}
use ucxclient.AtClient.Send.{buf_size, hex_chunks}

-- The writes, one behind the other.
abbrev pub concat : List Bytes → Bytes
concat [] = []
concat (chunk ∷ chunks) = chunk ++ concat chunks

hex_loop-part :
    (xs ys zs : Bytes) (len : ℕ)
    → hex_loop (xs ++ (ys ++ zs)) false len (length ys) (length xs) ≡ hex_text ys
unfolding hex_loop
hex_loop-part xs [] zs len = refl
hex_loop-part xs (y ∷ ys) zs len = ground (
  arith,
  get_or-append xs (ys ++ zs) y,
  hex_loop-part (xs ++ y ∷ []) ys zs len,
  append_assoc xs (y ∷ []) (ys ++ zs),
  length-append xs (y ∷ []),
)

-- A chunk of at most 20 bytes.
chunk_lem :
    (ys zs : Bytes)
    → length ys ≤ 20
    → binary_to_hex (some (ys ++ zs)) (length ys) buf_size ≡ (true, hex_text ys ++ 0 ∷ [])
unfolding binary_to_hex binary_to_hex_dir
chunk_lem ys zs few =
    let fits : ltb buf_size (2 * length ys + 1) ≡ false = ground (arith, few) in
    rw (fits, hex_loop-part [] ys zs (length ys)) refl

take-all : (s rest : Bytes) → take (length s) (s ++ rest) ≡ s
take-all [] rest = refl
take-all (c ∷ s) rest = ap (λ t. c ∷ t) (take-all s rest)

hex_text-append : (xs ys : Bytes) → hex_text (xs ++ ys) ≡ hex_text xs ++ hex_text ys
hex_text-append [] ys = refl
hex_text-append (x ∷ xs) ys = rw (hex_text-append xs ys) refl

-- The chunks of binary data that are sent as hex text are, one behind the other, the digits of all the
-- bytes; every chunk fits the buffer that it is printed to, so that no assertion fails.
pub hex_chunks_spell :
    (fuel : ℕ) (bytes : Bytes)
    → length bytes ≤ fuel
    → Returns (λ chunks. concat chunks ≡ hex_text bytes) (hex_chunks fuel bytes)
unfolding hex_chunks
hex_chunks_spell zero [] enough = returned [] refl
hex_chunks_spell zero (b ∷ more) enough = absurd (omega (arith, enough))
hex_chunks_spell (suc fuel) [] enough = returned [] refl
hex_chunks_spell (suc fuel) (b ∷ more) enough =
    let bs = b ∷ more in
    let n = min (length bs) 20 in
    let ys = take n bs in
    let size : length ys ≡ n = omega (arith, length-take n bs) in
    let split : ys ++ drop n bs ≡ bs = take-append-drop n bs in
    let whole : length ys + length (drop n bs) ≡ length bs =
      omega (arith, length-append ys (drop n bs), ap length split) in
    let out : binary_to_hex (some bs) n buf_size ≡ (true, hex_text ys ++ 0 ∷ []) =
      sym (ap (λ s. binary_to_hex (some s) n buf_size) split)
      ∙ sym (ap (λ k. binary_to_hex (some (ys ++ drop n bs)) k buf_size) size)
      ∙ chunk_lem ys (drop n bs) (omega (arith, size)) in
    let text : take (n + n) (hex_text ys ++ 0 ∷ []) ≡ hex_text ys =
      ap (λ k. take k (hex_text ys ++ 0 ∷ [])) (omega (arith, length-hex_text ys, size))
      ∙ take-all (hex_text ys) (0 ∷ []) in
    rw out (
      Returns->>= (hex_chunks_spell fuel (drop n bs) (omega (arith, whole, size, enough)))
        (λ chunks e.
          returned _ (rw (text, e) (sym (hex_text-append ys (drop n bs)) ∙ ap hex_text split))))
