-- ===== src/AtUtil/Hex/Digits.antt =====
-- Facts about one hex digit and one byte.
use ucxclient.Prelude.{
  ℕ, ◌+◌, ◌*◌, ◌/◌, ◌%◌, ◌<◌, ◌≡◌, refl, ap, ◌∙◌, some, bit_or, bit_and, arith, ◌==◌, ==_iff, table,
  true, table_lookup,
}
use ucxclient.AtUtil.Hex.{nibble_to_hex, hex_to_nibble, join_nibbles, hex_to_byte}

pub hex_to_nibble-nibble_to_hex : (n : ℕ) → n < 16 → hex_to_nibble (nibble_to_hex n) ≡ some n
unfolding hex_to_nibble nibble_to_hex
hex_to_nibble-nibble_to_hex n h = ground arith

pub hex_to_nibble-lt : (c : ℕ) {n : ℕ} → hex_to_nibble c ≡ some n → n < 16
unfolding hex_to_nibble
hex_to_nibble-lt c h = ground arith

mask_table : table (λ b. bit_and b 0xF == b % 16) 256 ≡ true
unfolding table
mask_table = refl

pub bit_and_mask : (b : ℕ) → b < 256 → bit_and b 0xF ≡ b % 16
bit_and_mask b h = (==_iff _ _).0 (table_lookup _ 256 b h mask_table)

join_table : table (λ b. bit_or (b / 16 * 16) (b % 16) == b) 256 ≡ true
unfolding table
join_table = refl

pub join_nibbles-split : (b : ℕ) → b < 256 → join_nibbles (b / 16) (b % 16) ≡ b
unfolding join_nibbles
join_nibbles-split b h = (==_iff _ b).0 (table_lookup _ 256 b h join_table)

pub join_nibbles_lem :
    (high low : ℕ) → high < 16 → low < 16 → join_nibbles high low ≡ high * 16 + low
join_nibbles_lem high low hh hl = ground (arith, join_nibbles-split (high * 16 + low))

pub hex_to_byte-some :
    (a c : ℕ) {high low : ℕ}
    → hex_to_nibble a ≡ some high
    → hex_to_nibble c ≡ some low
    → hex_to_byte a c ≡ some (join_nibbles high low)
unfolding hex_to_byte
hex_to_byte-some a c p q = ground arith

-- A byte written as two digits is read back.
pub hex_to_byte-nibbles :
    (b : ℕ)
    → b < 256
    → hex_to_byte (nibble_to_hex (b / 16)) (nibble_to_hex (bit_and b 0xF)) ≡ some b
hex_to_byte-nibbles b h = rw (bit_and_mask b h) (
    hex_to_byte-some _ _ (hex_to_nibble-nibble_to_hex (b / 16) (omega arith))
      (hex_to_nibble-nibble_to_hex (b % 16) (omega arith))
    ∙ ap some (join_nibbles-split b h))

pub hex_to_byte-lt : (high low : ℕ) {b : ℕ} → hex_to_byte high low ≡ some b → b < 256
unfolding hex_to_byte
hex_to_byte-lt high low h = grind (arith, hex_to_nibble-lt, join_nibbles_lem)
