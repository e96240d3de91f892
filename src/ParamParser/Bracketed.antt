-- ===== src/ParamParser/Bracketed.antt =====
-- Texts in brackets are one parameter, whatever commas they hold.
use ucxclient.Prelude.{
  ℕ, ◌+◌, ◌/◌, ◌%◌, ◌^◌, refl, ◌≡◌, ◌≢◌, ap, ◌∙◌, true, false, some, List, [], ◌∷◌, ◌++◌,
  append_assoc, sym, subst, arith, Bytes, All, All-append, length, length-append,
}
use ucxclient.Prelude.Int.{ℤ}
use ucxclient.Prelude.Decimal.{show_ℤ}
use ucxclient.AtUtil.ParamEnd.{Flags, scan_char, scan_end, scan_loop, find_param_end}
use ucxclient.AtUtil.ParamEnd.Split.{IsComplete}
use ucxclient.AtParams.IntList.RoundTrip.{ints_text, ints_body, tail-body}
use ucxclient.AtParams.Ip.{show_hex4, show_word}
use ucxclient.AtParams.Ip.HexRoundTrip.{ipv6_text}
use ucxclient.ParamParser.Plain.{Plain, show_ℤ-Plain}

-- The flags inside a bracket.
abbrev in_bracket : Flags
in_bracket = record { inside_string = false; inside_bracket = true; escape = false }

-- A character that the tokenizer does not mind there.
abbrev pub Inner : ℕ → Type 0
Inner c = (c ≢ 0x22) × (c ≢ b'\\') × (c ≢ b']')

scan_char-Inner : (c : ℕ) → Inner c → scan_char in_bracket c ≡ some in_bracket
unfolding scan_char
scan_char-Inner c h = ground (arith, h)

scan_loop-Inner :
    (s : Bytes) (k : ℕ)
    → All Inner s
    → scan_loop in_bracket (s ++ b']' ∷ []) k ≡ some (k + length s + 1)
unfolding scan_loop
scan_loop-Inner [] k h = unfold scan_char in unfold scan_end in ap some (omega arith)
scan_loop-Inner (c ∷ s) k (hc, hs) =
    ground (arith, scan_char-Inner c hc, scan_loop-Inner s (k + 1) hs)

pub find_param_end-Inner : (s : Bytes) → All Inner s → IsComplete (b'[' ∷ s ++ b']' ∷ [])
unfolding find_param_end scan_loop scan_char
find_param_end-Inner s h =
    scan_loop-Inner s 1 h ∙ ap some (omega (arith, length-append s (b']' ∷ [])))

Plain→Inner : (s : Bytes) → All Plain s → All Inner s
Plain→Inner [] h = tt
Plain→Inner (c ∷ s) (hc, hs) = (omega arith, Plain→Inner s hs)

ints_body-Inner : (values : List ℤ) → All Inner (ints_body values)
ints_body-Inner [] = tt
ints_body-Inner (v ∷ values) = (
  omega arith,
  All-append Inner (show_ℤ v) (ints_body values) (Plain→Inner _ (show_ℤ-Plain v))
      (ints_body-Inner values),
)

pub ints_text-IsComplete : (values : List ℤ) → IsComplete (ints_text values)
ints_text-IsComplete [] = find_param_end-Inner [] tt
ints_text-IsComplete (v ∷ values) =
    subst (λ t. IsComplete (b'[' ∷ t))
      (append_assoc (show_ℤ v) (ints_body values) (b']' ∷ [])
        ∙ sym (ap (λ t. show_ℤ v ++ t) (tail-body values)))
      (find_param_end-Inner (show_ℤ v ++ ints_body values) (
        All-append Inner (show_ℤ v) (ints_body values) (Plain→Inner _ (show_ℤ-Plain v))
          (ints_body-Inner values)))

show_hex4-Inner : (n : ℕ) → All Inner (show_hex4 n)
unfolding show_hex4
show_hex4-Inner n = ground arith

show_word-Inner : (w : ℕ) → All Inner (show_word w)
unfolding show_word
show_word-Inner w =
    All-append Inner (show_hex4 (w / 2 ^ 16 % 2 ^ 16)) (b':' ∷ show_hex4 (w % 2 ^ 16))
      (show_hex4-Inner _) (omega arith, show_hex4-Inner _)

words_Inner : (w : ℕ) (more : Bytes) → All Inner more → All Inner (show_word w ++ b':' ∷ more)
words_Inner w more h =
    All-append Inner (show_word w) (b':' ∷ more) (show_word-Inner w) (omega arith, h)

-- The words with colons between them.
abbrev words : ℕ → ℕ → ℕ → ℕ → Bytes
words w0 w1 w2 w3 =
    show_word w3 ++ (b':' ∷ show_word w2 ++ (b':' ∷ show_word w1 ++ (b':' ∷ show_word w0)))

ipv6_text-words : (w0 w1 w2 w3 : ℕ) → ipv6_text w0 w1 w2 w3 ≡ b'[' ∷ words w0 w1 w2 w3 ++ b']' ∷ []
unfolding show_word show_hex4
ipv6_text-words w0 w1 w2 w3 = refl

pub ipv6_text-IsComplete : (w0 w1 w2 w3 : ℕ) → IsComplete (ipv6_text w0 w1 w2 w3)
ipv6_text-IsComplete w0 w1 w2 w3 = subst IsComplete (sym (ipv6_text-words w0 w1 w2 w3)) (
    find_param_end-Inner (words w0 w1 w2 w3)
      (words_Inner w3 _ (words_Inner w2 _ (words_Inner w1 _ (show_word-Inner w0)))))
