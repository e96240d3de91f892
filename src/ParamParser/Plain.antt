-- ===== src/ParamParser/Plain.antt =====
-- Texts without quotes, brackets, backslashes and commas are one parameter.
use ucxclient.Prelude.{
  ℕ, zero, suc, ◌+◌, ◌/◌, ◌%◌, ◌^◌, ◌≤◌, ◌<◌, ◌≡◌, ◌≢◌, ap, ◌∙◌, some, [], ◌∷◌, ◌++◌, arith, Bytes,
  All, IsByte, All-append, length, if_split, ltb, tests,
}
use ucxclient.Prelude.Int.{ℤ, pos, negsuc}
use ucxclient.Prelude.Decimal.{decimal, show_ℕ, show_ℤ}
use ucxclient.AtUtil.Hex.{nibble_to_hex}
use ucxclient.AtUtil.Hex.Digits.{bit_and_mask}
use ucxclient.AtUtil.Hex.RoundTrip.{hex_text}
use ucxclient.AtUtil.ParamEnd.{scan_char, scan_end, scan_loop, start_flags, find_param_end}
use ucxclient.AtUtil.ParamEnd.Split.{IsComplete}
use ucxclient.AtParams.Ip.{show_ipv4}

-- A character that the tokenizer does not mind.
abbrev pub Plain : ℕ → Type 0
Plain c = (c ≢ 0x22) × (c ≢ b'\\') × (c ≢ b'[') × (c ≢ b']') × (c ≢ b',')

scan_char-Plain : (c : ℕ) → Plain c → scan_char start_flags c ≡ some start_flags
unfolding scan_char
scan_char-Plain c h = ground (arith, h)

scan_loop-Plain :
    (s : Bytes) (k : ℕ) → All Plain s → scan_loop start_flags s k ≡ some (k + length s)
unfolding scan_loop scan_end
scan_loop-Plain [] k h = ap some (omega arith)
scan_loop-Plain (c ∷ s) k (hc, hs) =
    ground (arith, scan_char-Plain c hc, scan_loop-Plain s (k + 1) hs)

pub find_param_end-Plain : (s : Bytes) → All Plain s → IsComplete s
unfolding find_param_end
find_param_end-Plain s h = scan_loop-Plain s 0 h ∙ ap some (omega arith)

decimal-Plain :
    (fuel n : ℕ) (acc : Bytes) → n ≤ fuel → All Plain acc → All Plain (decimal fuel n acc)
unfolding decimal
decimal-Plain zero n acc h q = (omega arith, q)
decimal-Plain (suc fuel) n acc h q =
    if_split (All Plain) (ltb n 10) (λ e. ((omega (tests, e)), q))
      (λ e. decimal-Plain fuel (n / 10) _ (omega arith) (omega arith, q))

pub show_ℕ-Plain : (n : ℕ) → All Plain (show_ℕ n)
unfolding show_ℕ
show_ℕ-Plain n = decimal-Plain n n [] (omega arith) tt

pub show_ℤ-Plain : (v : ℤ) → All Plain (show_ℤ v)
unfolding show_ℤ
show_ℤ-Plain (pos n) = show_ℕ-Plain n
show_ℤ-Plain (negsuc n) = (omega arith, show_ℕ-Plain (suc n))

nibble_to_hex-Plain : (n : ℕ) → n < 16 → Plain (nibble_to_hex n)
unfolding nibble_to_hex
nibble_to_hex-Plain n h = ground (arith, h)

pub hex_text-Plain : (s : Bytes) → All IsByte s → All Plain (hex_text s)
hex_text-Plain [] h = tt
hex_text-Plain (b ∷ s) (hb, hs) = rw (bit_and_mask b hb) (
  nibble_to_hex-Plain (b / 16) (omega arith),
  (nibble_to_hex-Plain (b % 16) (omega arith), hex_text-Plain s hs),
)

dotted-Plain : (n : ℕ) (t : Bytes) → All Plain t → All Plain (show_ℕ n ++ b'.' ∷ t)
dotted-Plain n t h = All-append Plain (show_ℕ n) (b'.' ∷ t) (show_ℕ-Plain n) (omega arith, h)

pub show_ipv4-Plain : (a : ℕ) → All Plain (show_ipv4 a)
unfolding show_ipv4
show_ipv4-Plain a =
    dotted-Plain (a / 2 ^ 24 % 256) _ (
      dotted-Plain (a / 2 ^ 16 % 256) _ (dotted-Plain (a / 2 ^ 8 % 256) _ (show_ℕ-Plain (a % 256))))
