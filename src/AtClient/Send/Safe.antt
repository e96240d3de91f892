-- ===== src/AtClient/Send/Safe.antt =====
-- Sending a command fails no assertion.
use ucxclient.Prelude.{
  ℕ, ◌/◌, ◌%◌, ◌^◌, ◌≤◌, ◌<◌, ◌≡◌, refl, true, false, not, ◌&&◌, List, [], ◌∷◌, ◌++◌, arith, length,
  length-append, leb, table, table_lookup,
}
use ucxclient.Prelude.Decimal.{show_ℕ, decimal}
use ucxclient.AtParams.Ip.{show_ipv4}
use ucxclient.AtClient.Send.{Param, mac_address, bd_address, binary, is_binary, is_nil}

-- What the caller owes for a parameter: addresses have their six bytes, and binary data some.
abbrev pub Sound : Param → Type 0
Sound (mac_address mac) = length mac ≡ 6
Sound (bd_address a) = length a.address ≡ 6
Sound (binary bytes) = 0 < length bytes
Sound p = Unit

-- What it owes for all: binary data, if any, come last.
abbrev pub Sendable : List Param → Type 0
Sendable [] = Unit
Sendable (p ∷ params) = Sound p × ((is_binary p && not (is_nil params)) ≡ false) × Sendable params

abbrev pub Anything {ℓ} : {A : Type ℓ} → A → Type 0
Anything a = Unit

short_table : table (λ n. leb (length (show_ℕ n)) 3 && leb 1 (length (show_ℕ n))) 256 ≡ true
unfolding table show_ℕ decimal
short_table = refl

length-show_ℕ : (n : ℕ) → n < 256 → (length (show_ℕ n) ≤ 3) × (1 ≤ length (show_ℕ n))
length-show_ℕ n small =
    let test =
      table_lookup (λ k. leb (length (show_ℕ k)) 3 && leb 1 (length (show_ℕ k))) 256 n small
        short_table in
    (ground (arith, test), ground (arith, test))

pub length-show_ipv4 : (a : ℕ) → (length (show_ipv4 a) ≤ 15) × (0 < length (show_ipv4 a))
unfolding show_ipv4
length-show_ipv4 a =
    let d0 = show_ℕ (a / 2 ^ 24 % 256) in
    let d1 = show_ℕ (a / 2 ^ 16 % 256) in
    let d2 = show_ℕ (a / 2 ^ 8 % 256) in
    let d3 = show_ℕ (a % 256) in
    let l0 = length-show_ℕ (a / 2 ^ 24 % 256) (omega arith) in
    let l1 = length-show_ℕ (a / 2 ^ 16 % 256) (omega arith) in
    let l2 = length-show_ℕ (a / 2 ^ 8 % 256) (omega arith) in
    let l3 = length-show_ℕ (a % 256) (omega arith) in
    let tail2 = b'.' ∷ d3 in
    let tail1 = b'.' ∷ d2 ++ tail2 in
    let tail0 = b'.' ∷ d1 ++ tail1 in
    (
      omega (
        arith,
        length-append d0 tail0,
        length-append d1 tail1,
        length-append d2 tail2,
        l0.0,
        l1.0,
        l2.0,
        l3.0,
      ),
      omega (arith, length-append d0 tail0, l0.1),
    )
