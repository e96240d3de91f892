-- ===== src/AtParams/Ip/RoundTrip.antt =====
-- A printed IP address is read back.
use ucxclient.Prelude.{
  ℕ, suc, ◌+◌, ◌*◌, ◌/◌, ◌%◌, ◌^◌, ◌<◌, ◌≡◌, refl, ap, ◌∙◌, true, false, not, some, [], ◌∷◌, ◌++◌,
  arith, Bytes, drop, ltb, ◌==◌, ==_iff, if◌then◌else◌, min, append-nil, if_true,
}
use ucxclient.Prelude.Decimal.{first, isdigit, scan_digits-append, first-show_ℕ, long_max, show_ℕ}
use ucxclient.AtParams.Ip.{
  IpAddress, v4, v6, address_string_is_ipv4, ipv4_loop, ipv4_string_to_ip_address,
  string_to_ip_address, ip_address_to_string, show_ipv4,
}
use ucxclient.AtParams.Ip.HexRoundTrip.{ipv6_text, string_to_ip_address-ipv6_text}

-- A string with a dot in it.
has_dot : (s t : Bytes) → address_string_is_ipv4 (s ++ b'.' ∷ t) ≡ true
unfolding address_string_is_ipv4
has_dot [] t = refl
has_dot (c ∷ s) t = ground (arith, has_dot s t)

-- One number, followed by what its place asks for.
ipv4_loop-show_ℕ :
    (rounds n : ℕ) (rest : Bytes) {digits : Bytes}
    → n < 256
    → first rest ≡ (if rounds == 0 then 0 else b'.')
    → ipv4_loop rounds (drop 1 rest) ≡ some digits
    → ipv4_loop (suc rounds) (show_ℕ n ++ rest) ≡ some (n ∷ digits)
unfolding ipv4_loop
ipv4_loop-show_ℕ rounds n rest {digits} small stop others =
    let no_digit : isdigit (first rest) ≡ false = ground (arith, stop) in
    let e = scan_digits-append n rest no_digit in
    let in_range : ltb 255 (min n long_max) ≡ false = ground arith in
    let stops : not (first rest == (if rounds == 0 then 0 else b'.')) ≡ false =
      ap not ((==_iff _ _).1 stop) in
    rw (e, first-show_ℕ n rest, others, in_range, stops)
      (ap (λ (p : ℕ × Bytes). some (p.0 ∷ digits)) e)

show_ipv4-reads :
    (a b c d : ℕ)
    → a < 256
    → b < 256
    → c < 256
    → d < 256
    → ipv4_loop 4 (show_ℕ a ++ (b'.' ∷ show_ℕ b ++ (b'.' ∷ show_ℕ c ++ (b'.' ∷ show_ℕ d ++ []))))
      ≡ some (a ∷ b ∷ c ∷ d ∷ [])
show_ipv4-reads a b c d ha hb hc hd =
    ipv4_loop-show_ℕ 3 a (b'.' ∷ show_ℕ b ++ (b'.' ∷ show_ℕ c ++ (b'.' ∷ show_ℕ d ++ []))) ha refl (
      ipv4_loop-show_ℕ 2 b (b'.' ∷ show_ℕ c ++ (b'.' ∷ show_ℕ d ++ [])) hb refl (
        ipv4_loop-show_ℕ 1 c (b'.' ∷ show_ℕ d ++ []) hc refl
          (ipv4_loop-show_ℕ 0 d [] hd refl (unfold ipv4_loop in refl))))

ipv4_string_to_ip_address_lem :
    (s : Bytes) (d0 d1 d2 d3 : ℕ)
    → ipv4_loop 4 s ≡ some (d0 ∷ d1 ∷ d2 ∷ d3 ∷ [])
    → ipv4_string_to_ip_address s ≡ some (v4 (d0 * 2 ^ 24 + d1 * 2 ^ 16 + d2 * 2 ^ 8 + d3))
unfolding ipv4_string_to_ip_address
ipv4_string_to_ip_address_lem s d0 d1 d2 d3 e = rw (e, ipv4_string_to_ip_address) refl

pub show_ipv4-reads_back : (a : ℕ) → a < 2 ^ 32 → string_to_ip_address (show_ipv4 a) ≡ some (v4 a)
unfolding string_to_ip_address show_ipv4
show_ipv4-reads_back a small =
    let d0 = a / 2 ^ 24 % 256 in
    let d1 = a / 2 ^ 16 % 256 in
    let d2 = a / 2 ^ 8 % 256 in
    let d3 = a % 256 in
    let tail = show_ℕ d1 ++ (b'.' ∷ show_ℕ d2 ++ (b'.' ∷ show_ℕ d3)) in
    let reads : ipv4_loop 4 (show_ℕ d0 ++ b'.' ∷ tail) ≡ some (d0 ∷ d1 ∷ d2 ∷ d3 ∷ []) =
      rw (← append-nil (show_ℕ d3))
        (show_ipv4-reads d0 d1 d2 d3 (omega arith) (omega arith) (omega arith) (omega arith)) in
    if_true (λ r. r ≡ some (v4 a)) _ (has_dot (show_ℕ d0) tail)
      (ipv4_string_to_ip_address_lem (show_ℕ d0 ++ b'.' ∷ tail) d0 d1 d2 d3 reads
        ∙ ap (λ n. some (v4 n)) (omega arith))

-- The words of an address have 32 bits.
abbrev pub Words : IpAddress → Type 0
Words (v4 a) = a < 2 ^ 32
Words (v6 w0 w1 w2 w3) = (w0 < 2 ^ 32) × (w1 < 2 ^ 32) × (w2 < 2 ^ 32) × (w3 < 2 ^ 32)

abbrev pub ip_text : IpAddress → Bytes
ip_text (v4 a) = show_ipv4 a
ip_text (v6 w0 w1 w2 w3) = ipv6_text w0 w1 w2 w3

pub ip_text-reads_back : (a : IpAddress) → Words a → string_to_ip_address (ip_text a) ≡ some a
ip_text-reads_back (v4 a) h = show_ipv4-reads_back a h
ip_text-reads_back (v6 w0 w1 w2 w3) (h0, h1, h2, h3) =
    string_to_ip_address-ipv6_text w0 w1 w2 w3 h0 h1 h2 h3

-- What is printed is the text, if it fits.
prints_text :
    (a : IpAddress) (size : ℕ) {text : Bytes}
    → ip_address_to_string a size ≡ some text
    → text ≡ ip_text a
unfolding ip_address_to_string
prints_text (v4 a) size e = ground (arith, e)
prints_text (v6 w0 w1 w2 w3) size e = ground (arith, e)

-- Every IP address, of version 4 or 6, that `uCxIpAddressToString` prints is read back by
-- `uCxStringToIpAddress`, its words being of 32 bits.
pub string_to_ip_address-ip_address_to_string :
    (a : IpAddress) (size : ℕ) {text : Bytes}
    → Words a
    → ip_address_to_string a size ≡ some text
    → string_to_ip_address text ≡ some a
string_to_ip_address-ip_address_to_string a size {text} small e =
    rw (prints_text a size e) (ip_text-reads_back a small)
