-- ===== src/Xmodem/Blocks.antt =====
-- The blocks of a file, and the data that a callback gives for them.
use ucxclient.Prelude.{
  ℕ, zero, suc, ◌+◌, ◌-◌, ◌%◌, ◌<◌, ◌≤◌, ◌≡◌, refl, ap, sym, ◌∙◌, Option, some, List, [], ◌∷◌, ◌++◌,
  arith, Bytes, length, length-take, length-drop, take, drop, drop-drop, replicate, min, ltb,
  if◌then◌else◌,
}

-- The blocks of a file: numbered modulo 256, and filled up with 0x1A.
unfoldable pub blocks : ℕ → ℕ → ℕ → Bytes → List (ℕ × Bytes)
blocks zero size block_num s = []
blocks (suc fuel) size block_num [] = []
blocks (suc fuel) size block_num (b ∷ more) =
    let chunk = take size (b ∷ more) in
    (block_num, chunk ++ replicate (size - length chunk) 0x1A)
    ∷ blocks fuel size ((block_num + 1) % 256) (drop size (b ∷ more))

-- A data callback that reads a file.
abbrev pub file_source : Bytes → ℕ → ℕ → Option Bytes
file_source file offset len = some (take len (drop offset file))

pub blocks-next :
    (fuel size block_num : ℕ) (s : Bytes)
    → 0 < length s
    → blocks (suc fuel) size block_num s
      ≡ (block_num, take size s ++ replicate (size - length (take size s)) 0x1A)
        ∷ blocks fuel size ((block_num + 1) % 256) (drop size s)
unfolding blocks
blocks-next fuel size block_num [] any = absurd (omega (arith, any))
blocks-next fuel size block_num (b ∷ more) any = refl

pub blocks-end :
    (fuel size block_num : ℕ) (s : Bytes) → length s ≡ 0 → blocks fuel size block_num s ≡ []
unfolding blocks
blocks-end zero size block_num s none_left = refl
blocks-end (suc fuel) size block_num [] none_left = refl
blocks-end (suc fuel) size block_num (b ∷ more) none_left = absurd (omega (arith, none_left))

-- A callback that reads the file wherever it has bytes.
abbrev pub ReadsFile : Bytes → (ℕ → ℕ → Option Bytes) → Type 0
ReadsFile file get =
    (offset len : ℕ) → offset < length file → get offset len ≡ file_source file offset len

-- Asking for no more than there is changes nothing.
clip :
    (size : ℕ) (s : Bytes) (n : ℕ)
    → n ≡ min size (length s)
    → (take n s ≡ take size s) × (drop n s ≡ drop size s)
clip zero s zero e = (refl, refl)
clip zero s (suc n) e = absurd (omega (arith, e))
clip (suc size) [] zero e = (refl, refl)
clip (suc size) [] (suc n) e = absurd (omega (arith, e))
clip (suc size) (x ∷ s) zero e = absurd (omega (arith, e))
clip (suc size) (x ∷ s) (suc n) e =
    let rest = clip size s n (omega (arith, e)) in (ap (λ t. x ∷ t) rest.0, rest.1)

-- What the loop asks the callback for at an offset.
abbrev pub request_len : Bytes → ℕ → ℕ → ℕ
request_len file size offset =
    if ltb (length file - offset) size then length file - offset else size

abbrev pub next_chunk : Bytes → ℕ → ℕ → Bytes
next_chunk file size offset = take (request_len file size offset) (drop offset file)

-- It is the next block's data, of a byte at least, and the rest of the file is behind it.
pub next_chunk_lem :
    (file : Bytes) (size offset : ℕ)
    → 0 < size
    → offset < length file
    → (next_chunk file size offset ≡ take size (drop offset file))
      × (drop (offset + length (next_chunk file size offset)) file ≡ drop size (drop offset file))
      × (0 < length (next_chunk file size offset))
      × (length (next_chunk file size offset) ≤ size)
      × (offset + length (next_chunk file size offset) ≤ length file)
next_chunk_lem file size offset positive more =
    let s = drop offset file in
    let ask = request_len file size offset in
    let chunk = next_chunk file size offset in
    let asked : ask ≡ min size (length s) = ground (arith, length-drop offset file) in
    let clipped = clip size s ask asked in
    let n : length chunk ≡ ask = omega (arith, length-take ask s, asked) in
    let size_left : length s ≡ length file - offset = length-drop offset file in
    let behind : drop (offset + length chunk) file ≡ drop size s =
      sym (drop-drop offset (length chunk) file) ∙ ap (λ k. drop k s) n ∙ clipped.1 in
    (
      clipped.0,
      behind,
      omega (arith, n, asked, more, size_left, positive),
      omega (arith, n, asked),
      omega (arith, n, asked, more, size_left),
    )
