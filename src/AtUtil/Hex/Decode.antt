-- ===== src/AtUtil/Hex/Decode.antt =====
-- How far hex_to_binary reads, and what it stores, on any string.
use ucxclient.Prelude.{
  ℕ, zero, suc, ◌≤◌, ◌≡◌, refl, ap, ◌⊎◌, inl, inr, none, some, [], ◌∷◌, arith, Bytes, All, IsByte,
  length, Option-cases,
}
use ucxclient.AtUtil.Hex.{hex_to_byte, hex_to_binary}
use ucxclient.AtUtil.Hex.Digits.{hex_to_byte-lt}

-- `bytes` are the values of the leading digit pairs of `s`, and `rest` is what follows them.
pub data Decodes : Bytes → Bytes → Bytes → Type 0 where
  done : (s : Bytes) → Decodes s [] s
  pair :
      (high low : ℕ) {b : ℕ} {s bytes rest : Bytes}
      → hex_to_byte high low ≡ some b
      → Decodes s bytes rest
      → Decodes (high ∷ low ∷ s) (b ∷ bytes) rest

-- No further pair can be read from `rest`.
abbrev pub NoPair : Bytes → Type 0
NoPair [] = Unit
NoPair (c ∷ []) = Unit
NoPair (high ∷ low ∷ s) = hex_to_byte high low ≡ none

-- On every string, `uCxAtUtilHexToBinary` stores the values of leading digit pairs, each a byte and
-- never more than the buffer holds, and it stops only at a full buffer or where no pair follows.
pub hex_to_binary-Decodes :
    (s : Bytes) (size : ℕ)
    → let bytes = hex_to_binary s size in
      (rest : Bytes) × Decodes s bytes rest
      × All IsByte bytes
      × (length bytes ≤ size)
      × ((length bytes ≡ size) ⊎ NoPair rest)
unfolding hex_to_binary
hex_to_binary-Decodes [] size = ([], done [], tt, omega arith, inr tt)
hex_to_binary-Decodes (c ∷ []) size = (c ∷ [], done _, tt, omega arith, inr tt)
hex_to_binary-Decodes (high ∷ low ∷ s) zero = (high ∷ low ∷ s, done _, tt, omega arith, inl refl)
hex_to_binary-Decodes (high ∷ low ∷ s) (suc size) = elim (Option-cases (hex_to_byte high low)) [
  | inl e ↦ rw (e, hex_to_binary) (high ∷ low ∷ s, done _, tt, omega arith, inr e)
  | inr (b, e) ↦
      let (rest, read, small, fits, stop) = hex_to_binary-Decodes s size in
      rw (e, hex_to_binary)
        (
          rest,
          pair high low e read,
          (hex_to_byte-lt high low e, small),
          omega arith,
          elim stop [ inl full ↦ inl (ap suc full) | inr short ↦ inr short ],
        )
]
