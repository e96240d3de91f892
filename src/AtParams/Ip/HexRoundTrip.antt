-- ===== src/AtParams/Ip/HexRoundTrip.antt =====
-- A printed IPv6 address is read back.
use ucxclient.Prelude.{
  ℕ, suc, ◌+◌, ◌*◌, ◌/◌, ◌%◌, ◌^◌, ◌<◌, ◌≡◌, refl, ap, ◌∙◌, true, false, some, List, [], ◌∷◌, ◌++◌,
  arith, All, Bytes, drop, length, ltb, ◌==◌, if◌then◌else◌, if_false, Option-cases, inl, inr, ◌||◌,
}
use ucxclient.Prelude.Decimal.{first, skip_spaces, read_sign}
use ucxclient.AtUtil.Hex.{hex_to_nibble}
use ucxclient.AtParams.Ip.{
  v6, address_string_is_ipv4, is_hex_digit, scan_hex, skip_hex_prefix, read_hex16, hex_digit,
  show_hex4, show_word, ipv6_ends, ipv6_loop, ipv6_string_to_ip_address, string_to_ip_address,
}

hex_to_nibble-hex_digit : (d : ℕ) → d < 16 → hex_to_nibble (hex_digit d) ≡ some d
unfolding hex_to_nibble
hex_to_nibble-hex_digit d h = ground (arith, h)

scan_hex-stop :
    (n : ℕ) (rest : Bytes) → is_hex_digit (first rest) ≡ false → scan_hex n rest ≡ (n, rest)
unfolding scan_hex
scan_hex-stop n [] stop = refl
scan_hex-stop n (c ∷ s) stop = elim (Option-cases (hex_to_nibble c)) [
  | inl e ↦ ground (arith, e)
  | inr (d, e) ↦ ground (arith, e, stop)
]

scan_hex-hex_digit :
    (n d : ℕ) (s : Bytes) → d < 16 → scan_hex n (hex_digit d ∷ s) ≡ scan_hex (n * 16 + d) s
unfolding scan_hex
scan_hex-hex_digit n d s h = ground (arith, hex_to_nibble-hex_digit d h)

-- Four hex digits.
abbrev digits4 : ℕ → ℕ → ℕ → ℕ → Bytes → Bytes
digits4 a b c d rest = hex_digit a ∷ hex_digit b ∷ hex_digit c ∷ hex_digit d ∷ rest

scan_hex-digits4 :
    (a b c d : ℕ) (rest : Bytes)
    → a < 16
    → b < 16
    → c < 16
    → d < 16
    → is_hex_digit (first rest) ≡ false
    → scan_hex 0 (digits4 a b c d rest) ≡ (((a * 16 + b) * 16 + c) * 16 + d, rest)
scan_hex-digits4 a b c d rest ha hb hc hd stop =
    let s : Bytes = hex_digit b ∷ hex_digit c ∷ hex_digit d ∷ rest in
    scan_hex-hex_digit 0 a s ha
    ∙ ap (λ n. scan_hex n s) (omega arith)
    ∙ scan_hex-hex_digit a b (hex_digit c ∷ hex_digit d ∷ rest) hb
    ∙ scan_hex-hex_digit (a * 16 + b) c (hex_digit d ∷ rest) hc
    ∙ scan_hex-hex_digit ((a * 16 + b) * 16 + c) d rest hd
    ∙ scan_hex-stop (((a * 16 + b) * 16 + c) * 16 + d) rest stop

-- It is no space, sign or prefix that they start with.
starts_plainly :
    (a b c d : ℕ) (rest : Bytes)
    → a < 16
    → b < 16
    → (skip_spaces (digits4 a b c d rest) ≡ digits4 a b c d rest)
      × (read_sign (digits4 a b c d rest) ≡ (false, digits4 a b c d rest))
      × (skip_hex_prefix (digits4 a b c d rest) ≡ digits4 a b c d rest)
unfolding skip_spaces read_sign skip_hex_prefix
starts_plainly a b c d rest ha hb =
    let no_x : ((hex_digit b == b'x') || (hex_digit b == b'X')) ≡ false = ground (arith, hb) in
    (ground (arith, ha), ground (arith, ha), ground (arith, no_x))

read_hex16-digits4 :
    (a b c d : ℕ) (rest : Bytes)
    → a < 16
    → b < 16
    → c < 16
    → d < 16
    → is_hex_digit (first rest) ≡ false
    → read_hex16 (digits4 a b c d rest) ≡ (((a * 16 + b) * 16 + c) * 16 + d, rest)
unfolding read_hex16
read_hex16-digits4 a b c d rest ha hb hc hd stop =
    let (spaces, sign, prefix) = starts_plainly a b c d rest ha hb in
    ground (
      arith,
      spaces,
      sign,
      prefix,
      scan_hex-digits4 a b c d rest ha hb hc hd stop,
      hex_to_nibble-hex_digit a ha,
    )

read_hex16-show_hex4 :
    (n : ℕ) (rest : Bytes)
    → n < 2 ^ 16
    → is_hex_digit (first rest) ≡ false
    → read_hex16 (show_hex4 n ++ rest) ≡ (n, rest)
unfolding show_hex4
read_hex16-show_hex4 n rest h stop =
    read_hex16-digits4 (n / 2 ^ 12) (n / 2 ^ 8 % 16) (n / 2 ^ 4 % 16) (n % 16) rest (omega arith)
      (omega arith) (omega arith) (omega arith) stop
    ∙ ap (λ k. (k, rest)) (omega arith)

show_hex4-first :
    (n : ℕ) (rest : Bytes)
    → n < 2 ^ 16
    → ((first (show_hex4 n ++ rest) == 0) ≡ false)
      × (ltb (length rest + 4) (length (show_hex4 n ++ rest)) ≡ false)
unfolding show_hex4
show_hex4-first n rest h = (ground (arith, h), ground arith)

-- One number, followed by what its place asks for.
ipv6_loop-show_hex4 :
    (rounds n : ℕ) (rest : Bytes) {digits : List ℕ}
    → n < 2 ^ 16
    → is_hex_digit (first rest) ≡ false
    → (if rounds == 0 then ipv6_ends true rest else first rest == b':') ≡ true
    → ipv6_loop rounds true (drop 1 rest) ≡ some digits
    → ipv6_loop (suc rounds) true (show_hex4 n ++ rest) ≡ some (n ∷ digits)
unfolding ipv6_loop
ipv6_loop-show_hex4 rounds n rest h stop place others =
    let reads = read_hex16-show_hex4 n rest h stop in
    let (some_text, four) = show_hex4-first n rest h in
    ground (arith, reads, some_text, four, place, others)

digit_no_dot : (d : ℕ) → d < 16 → (hex_digit d == b'.') ≡ false
digit_no_dot d h = ground (arith, h)

no_dot :
    (n : ℕ) (rest : Bytes)
    → n < 2 ^ 16
    → address_string_is_ipv4 (show_hex4 n ++ rest) ≡ address_string_is_ipv4 rest
unfolding address_string_is_ipv4 show_hex4
no_dot n rest h = ground (
  arith,
  digit_no_dot (n / 2 ^ 12) (omega arith),
  digit_no_dot (n / 2 ^ 8 % 16) (omega arith),
  digit_no_dot (n / 2 ^ 4 % 16) (omega arith),
  digit_no_dot (n % 16) (omega arith),
)

-- Numbers with colons between them, and the bracket.
abbrev numbers : List ℕ → Bytes
numbers [] = b']' ∷ []
numbers (n ∷ []) = show_hex4 n ++ b']' ∷ []
numbers (n ∷ k ∷ more) = show_hex4 n ++ b':' ∷ numbers (k ∷ more)

abbrev Small : ℕ → Type 0
Small n = n < 2 ^ 16

numbers-IsIpv6 :
    (values : List ℕ) → All Small values → address_string_is_ipv4 (numbers values) ≡ false
unfolding address_string_is_ipv4
numbers-IsIpv6 [] h = refl
numbers-IsIpv6 (n ∷ []) (hn, h) = no_dot n (b']' ∷ []) hn
numbers-IsIpv6 (n ∷ k ∷ more) (hn, h) =
    no_dot n (b':' ∷ numbers (k ∷ more)) hn ∙ numbers-IsIpv6 (k ∷ more) h

ipv6_loop-numbers :
    (values : List ℕ)
    → All Small values
    → ipv6_loop (length values) true (numbers values) ≡ some values
ipv6_loop-numbers [] h = unfold ipv6_loop in refl
ipv6_loop-numbers (n ∷ []) (hn, h) =
    ipv6_loop-show_hex4 0 n (b']' ∷ []) hn (unfold hex_to_nibble in refl) (unfold ipv6_ends in refl)
      (unfold ipv6_loop in refl)
ipv6_loop-numbers (n ∷ k ∷ more) (hn, h) =
    ipv6_loop-show_hex4 (suc (length more)) n (b':' ∷ numbers (k ∷ more)) hn
      (unfold hex_to_nibble in refl) (ground arith) (ipv6_loop-numbers (k ∷ more) h)

-- The text of an IPv6 address.
abbrev pub ipv6_text : ℕ → ℕ → ℕ → ℕ → Bytes
ipv6_text w0 w1 w2 w3 =
    b'[' ∷ show_word w3
    ++ (b':' ∷ show_word w2 ++ (b':' ∷ show_word w1 ++ (b':' ∷ show_word w0 ++ b']' ∷ [])))

abbrev halves : ℕ → ℕ → ℕ → ℕ → List ℕ
halves w0 w1 w2 w3 =
    w3 / 2 ^ 16 % 2 ^ 16
    ∷ w3 % 2 ^ 16
    ∷ w2 / 2 ^ 16 % 2 ^ 16
    ∷ w2 % 2 ^ 16
    ∷ w1 / 2 ^ 16 % 2 ^ 16
    ∷ w1 % 2 ^ 16
    ∷ w0 / 2 ^ 16 % 2 ^ 16
    ∷ w0 % 2 ^ 16
    ∷ []

ipv6_text-numbers : (w0 w1 w2 w3 : ℕ) → ipv6_text w0 w1 w2 w3 ≡ b'[' ∷ numbers (halves w0 w1 w2 w3)
unfolding show_word show_hex4
ipv6_text-numbers w0 w1 w2 w3 = refl

halves-Small : (w0 w1 w2 w3 : ℕ) → All Small (halves w0 w1 w2 w3)
halves-Small w0 w1 w2 w3 = omega arith

ipv6_string_to_ip_address_lem :
    (s : Bytes) (d0 d1 d2 d3 d4 d5 d6 d7 : ℕ)
    → ipv6_loop 8 true s ≡ some (d0 ∷ d1 ∷ d2 ∷ d3 ∷ d4 ∷ d5 ∷ d6 ∷ d7 ∷ [])
    → ipv6_string_to_ip_address (b'[' ∷ s)
      ≡ some (v6 (d6 * 2 ^ 16 + d7) (d4 * 2 ^ 16 + d5) (d2 * 2 ^ 16 + d3) (d0 * 2 ^ 16 + d1))
unfolding ipv6_string_to_ip_address
ipv6_string_to_ip_address_lem s d0 d1 d2 d3 d4 d5 d6 d7 e = rw (e, ipv6_string_to_ip_address) refl

word_halves : (w : ℕ) → w < 2 ^ 32 → w / 2 ^ 16 % 2 ^ 16 * 2 ^ 16 + w % 2 ^ 16 ≡ w
word_halves w h = omega arith

numbers-reads_back :
    (w0 w1 w2 w3 : ℕ)
    → w0 < 2 ^ 32
    → w1 < 2 ^ 32
    → w2 < 2 ^ 32
    → w3 < 2 ^ 32
    → string_to_ip_address (b'[' ∷ numbers (halves w0 w1 w2 w3)) ≡ some (v6 w0 w1 w2 w3)
unfolding string_to_ip_address address_string_is_ipv4
numbers-reads_back w0 w1 w2 w3 h0 h1 h2 h3 =
    let values = halves w0 w1 w2 w3 in
    let small = halves-Small w0 w1 w2 w3 in
    if_false (λ r. r ≡ some (v6 w0 w1 w2 w3)) _ (numbers-IsIpv6 values small)
      (ipv6_string_to_ip_address_lem (numbers values) _ _ _ _ _ _ _ _
          (ipv6_loop-numbers values small)
        ∙ rw (word_halves w0 h0, word_halves w1 h1, word_halves w2 h2, word_halves w3 h3) refl)

-- The text of an IPv6 address of four words is read back by `uCxStringToIpAddress`.
pub string_to_ip_address-ipv6_text :
    (w0 w1 w2 w3 : ℕ)
    → w0 < 2 ^ 32
    → w1 < 2 ^ 32
    → w2 < 2 ^ 32
    → w3 < 2 ^ 32
    → string_to_ip_address (ipv6_text w0 w1 w2 w3) ≡ some (v6 w0 w1 w2 w3)
string_to_ip_address-ipv6_text w0 w1 w2 w3 h0 h1 h2 h3 =
    ap string_to_ip_address (ipv6_text-numbers w0 w1 w2 w3)
    ∙ numbers-reads_back w0 w1 w2 w3 h0 h1 h2 h3
