-- ===== src/Prelude/Decimal.antt =====
-- Decimal numbers of the C library: what `%d` and `%u` print and what `strtol` reads.
use ucxclient.Prelude.{
  ℕ, zero, suc, ◌+◌, ◌-◌, ◌*◌, ◌/◌, ◌%◌, ◌^◌, ◌≤◌, ◌≡◌, refl, ◌∙◌, Bool, true, false, ◌&&◌, ◌||◌,
  Option, none, some, [], ◌∷◌, ◌++◌, arith, Bytes, leb, ltb, ◌==◌, if◌then◌else◌,
}
use ucxclient.Prelude.Int.{ℤ, pos, negsuc, ◌-ℤ◌}

-- The character at the start of a C string, the terminator if it is empty.
abbrev pub first : Bytes → ℕ
first [] = 0
first (c ∷ s) = c

abbrev pub isdigit : ℕ → Bool
isdigit c = leb b'0' c && leb c b'9'

-- `isspace` of the C locale
abbrev pub isspace : ℕ → Bool
isspace c = c == 0x20 || (leb 0x09 c && leb c 0x0D)

-- The digits of `n` in front of `acc`; fuel is at least `n`.
unfoldable pub decimal : ℕ → ℕ → Bytes → Bytes
decimal zero n acc = (b'0' + n) ∷ acc
decimal (suc fuel) n acc =
    let rest = decimal fuel (n / 10) ((b'0' + n % 10) ∷ acc) in
    if ltb n 10 then (b'0' + n) ∷ acc else rest

-- `%u`
unfoldable pub show_ℕ : ℕ → Bytes
show_ℕ n = decimal n n []

-- `%d`
unfoldable pub show_ℤ : ℤ → Bytes
show_ℤ (pos n) = show_ℕ n
show_ℤ (negsuc n) = b'-' ∷ show_ℕ (suc n)

-- `strtol` in base 10 at digits: the number that they spell after `n`, and what follows them.
unfoldable pub scan_digits : ℕ → Bytes → ℕ × Bytes
scan_digits n [] = (n, [])
scan_digits n (c ∷ s) =
    let rest = scan_digits (n * 10 + (c - b'0')) s in if isdigit c then rest else (n, c ∷ s)

-- The largest `long`, at which `strtol` stops.
abbrev pub long_max : ℕ
long_max = 2 ^ 31 - 1

unfoldable pub skip_spaces : Bytes → Bytes
skip_spaces [] = []
skip_spaces (c ∷ s) = if isspace c then skip_spaces s else c ∷ s

-- A sign, if there is one, and what follows.
unfoldable pub read_sign : Bytes → Bool × Bytes
read_sign [] = (false, [])
read_sign (c ∷ s) =
    if c == b'-' then (true, s) else if c == b'+' then (false, s) else (false, c ∷ s)

abbrev pub signed : Bool → ℕ → ℤ
signed negative n = if negative then pos 0 -ℤ pos n else pos n

-- `strtol` in base 10 (for numbers that a `long` holds); `none` where it finds no number.
unfoldable pub read_long : Bytes → Option (ℤ × Bytes)
read_long s =
    let (negative, digits) = read_sign (skip_spaces s) in
    let (n, rest) = scan_digits 0 digits in
    if isdigit (first digits) then some (signed negative n, rest) else none

scan_digits-decimal :
    (fuel n : ℕ) (acc : Bytes) → n ≤ fuel → scan_digits 0 (decimal fuel n acc) ≡ scan_digits n acc
unfolding decimal scan_digits
scan_digits-decimal zero n acc h = ground arith
scan_digits-decimal (suc fuel) n acc h =
    ground (arith, scan_digits-decimal fuel (n / 10) ((b'0' + n % 10) ∷ acc))

-- A printed number is read back.
pub scan_digits-show_ℕ : (n : ℕ) → scan_digits 0 (show_ℕ n) ≡ (n, [])
unfolding show_ℕ scan_digits
scan_digits-show_ℕ n = scan_digits-decimal n n [] (omega arith)

decimal-append :
    (fuel n : ℕ) (acc rest : Bytes) → decimal fuel n acc ++ rest ≡ decimal fuel n (acc ++ rest)
unfolding decimal
decimal-append zero n acc rest = refl
decimal-append (suc fuel) n acc rest =
    ground (arith, decimal-append fuel (n / 10) ((b'0' + n % 10) ∷ acc) rest)

scan_digits-stop : (k : ℕ) (s : Bytes) → isdigit (first s) ≡ false → scan_digits k s ≡ (k, s)
unfolding scan_digits
scan_digits-stop k [] e = refl
scan_digits-stop k (c ∷ s) e = ground (arith, e)

-- A printed number ends where no digit follows.
pub scan_digits-append :
    (n : ℕ) (rest : Bytes)
    → isdigit (first rest) ≡ false
    → scan_digits 0 (show_ℕ n ++ rest) ≡ (n, rest)
unfolding show_ℕ
scan_digits-append n rest h =
    rw (decimal-append n n [] rest)
      (scan_digits-decimal n n rest (omega arith) ∙ scan_digits-stop n rest h)

first-decimal : (fuel n : ℕ) (acc : Bytes) → n ≤ fuel → isdigit (first (decimal fuel n acc)) ≡ true
unfolding decimal
first-decimal zero n acc h = ground arith
first-decimal (suc fuel) n acc h =
    ground (arith, first-decimal fuel (n / 10) ((b'0' + n % 10) ∷ acc))

pub first-show_ℕ : (n : ℕ) (rest : Bytes) → isdigit (first (show_ℕ n ++ rest)) ≡ true
unfolding show_ℕ
first-show_ℕ n rest = rw (decimal-append n n [] rest) (first-decimal n n rest (omega arith))

starts_with_digit :
    (s : Bytes) → isdigit (first s) ≡ true → (skip_spaces s ≡ s) × (read_sign s ≡ (false, s))
unfolding skip_spaces read_sign
starts_with_digit [] h = ground (arith, h)
starts_with_digit (c ∷ s) h = (ground (arith, h), ground (arith, h))

-- A printed integer is read back where no digit follows.
pub read_long-append :
    (v : ℤ) (rest : Bytes)
    → isdigit (first rest) ≡ false
    → read_long (show_ℤ v ++ rest) ≡ some (v, rest)
unfolding read_long show_ℤ skip_spaces read_sign ◌-ℤ◌
read_long-append (pos n) rest h =
    let d = first-show_ℕ n rest in
    let (skips, unsigned) = starts_with_digit (show_ℕ n ++ rest) d in
    ground (arith, skips, unsigned, d, scan_digits-append n rest h)
read_long-append (negsuc n) rest h =
    ground (arith, first-show_ℕ (suc n) rest, scan_digits-append (suc n) rest h)
