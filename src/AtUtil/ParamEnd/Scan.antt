-- ===== src/AtUtil/ParamEnd/Scan.antt =====
-- What find_param_end makes of quoted text, and where it stops on any string.
use ucxclient.Prelude.{
  ℕ, suc, ◌+◌, ◌/◌, ◌%◌, ◌≤◌, ◌<◌, ◌≡◌, ◌≢◌, ◌⊎◌, inl, inr, refl, ap, ◌∙◌, true, false, none, some,
  [], ◌∷◌, ◌++◌, arith, Bytes, All, IsByte, length, length-append, Option-cases, append_assoc,
  get_elem?,
}
use ucxclient.AtUtil.Hex.{nibble_to_hex}
use ucxclient.AtUtil.Hex.Digits.{bit_and_mask}
use ucxclient.AtUtil.Escape.{quote, escape_character}
use ucxclient.AtUtil.Escape.RoundTrip.{escape_text}
use ucxclient.AtUtil.Escape.Space.{quoted}
use ucxclient.AtUtil.ParamEnd.{Flags, scan_char, scan_end, scan_loop, start_flags, find_param_end}

-- The flags inside a quoted string.
abbrev in_string : Flags
in_string = record { inside_string = true; inside_bracket = false; escape = false }

-- A hex digit is no character that the tokenizer minds inside a string.
nibble_to_hex_plain : (n : ℕ) → (nibble_to_hex n ≢ 0x22) × ((n < 16) → nibble_to_hex n ≢ b'\\')
unfolding nibble_to_hex
nibble_to_hex_plain n = ground arith

scan_loop-escape_character :
    (c : ℕ) (s : Bytes) (pos : ℕ)
    → c < 256
    → scan_loop in_string (escape_character c ++ s) pos
      ≡ scan_loop in_string s (pos + length (escape_character c))
unfolding escape_character scan_loop scan_char
scan_loop-escape_character c s pos h =
    ground (arith, bit_and_mask c h, nibble_to_hex_plain (c / 16), nibble_to_hex_plain (c % 16))

scan_loop-escape_text :
    (t s : Bytes) (pos : ℕ)
    → All IsByte t
    → scan_loop in_string (escape_text t ++ s) pos
      ≡ scan_loop in_string s (pos + length (escape_text t))
scan_loop-escape_text [] s pos h = ap (scan_loop in_string s) (omega arith)
scan_loop-escape_text (c ∷ t) s pos (hc, hs) = rw append_assoc (
    scan_loop-escape_character c (escape_text t ++ s) pos hc
    ∙ scan_loop-escape_text t s (pos + length (escape_character c)) hs
    ∙ ap (scan_loop in_string s)
        (omega (arith, length-append (escape_character c) (escape_text t))))

-- A quoted byte string that ends the text or has a comma behind it is one parameter, whatever commas,
-- quotes, brackets and backslashes the string holds: its end is found just behind the closing quote.
pub find_param_end-quoted :
    (t rest : Bytes)
    → All IsByte t
    → (find_param_end (quoted t) ≡ some (length (quoted t)))
      × (find_param_end (quoted t ++ b',' ∷ rest) ≡ some (length (quoted t)))
unfolding find_param_end scan_loop scan_char scan_end
find_param_end-quoted t rest h = (
  scan_loop-escape_text t (quote ∷ []) 1 h
      ∙ ap some (omega (arith, length-append (escape_text t) (quote ∷ []))),
  rw append_assoc (
      scan_loop-escape_text t (quote ∷ b',' ∷ rest) 1 h
      ∙ ap some (omega (arith, length-append (escape_text t) (quote ∷ [])))),
)

scan_loop-append :
    (f : Flags) (p rest : Bytes) (pos : ℕ)
    → scan_loop f p pos ≡ some (pos + length p)
    → scan_loop f (p ++ b',' ∷ rest) pos ≡ some (pos + length p)
unfolding scan_loop scan_end
scan_loop-append f [] rest pos h = unfold scan_char in ground arith
scan_loop-append f (c ∷ p) rest pos h = elim (Option-cases (scan_char f c)) [
  | inl e ↦ ground arith
  | inr (f', e) ↦ ground (arith, scan_loop-append f' p rest (pos + 1))
]

-- A text that is one complete parameter by itself (its end is the end of the text) stays one
-- parameter when a comma and any further text follow: its end is that comma.
pub find_param_end-append :
    (p rest : Bytes)
    → find_param_end p ≡ some (length p)
    → find_param_end (p ++ b',' ∷ rest) ≡ some (length p)
unfolding find_param_end
find_param_end-append p rest h = ground (arith, scan_loop-append start_flags p rest 0)

pub scan_char-none : (f : Flags) (c : ℕ) → scan_char f c ≡ none → c ≡ b','
unfolding scan_char
scan_char-none f c h = ground arith

-- Where the tokenizer can stop: at the end of the text, or at a comma in it.
abbrev StopsAt : Bytes → ℕ → Type 0
StopsAt s k = (k ≡ length s) ⊎ (get_elem? s k ≡ some b',')

scan_loop_stop :
    (f : Flags) (s : Bytes) (pos n : ℕ)
    → scan_loop f s pos ≡ some n
    → (k : ℕ) × (n ≡ pos + k) × (k ≤ length s) × StopsAt s k
unfolding scan_loop scan_end
scan_loop_stop f [] pos n h = (0, ground arith, ground arith, inl refl)
scan_loop_stop f (c ∷ s) pos n h = elim (Option-cases (scan_char f c)) [
  | inl e ↦ (0, ground arith, omega arith, inr (ap some (scan_char-none f c e)))
  | inr (f', e) ↦
      let (k, at_k, within, stop) = scan_loop_stop f' s (pos + 1) n (ground arith) in
      (suc k, omega arith, omega arith, elim stop [ inl q ↦ inl (ap suc q) | inr q ↦ inr q ])
]

-- The end that is found lies in the text, on its terminator or on a comma.
pub find_param_end_stop :
    (s : Bytes) {n : ℕ}
    → find_param_end s ≡ some n
    → (n ≤ length s) × ((n ≡ length s) ⊎ (get_elem? s n ≡ some b','))
unfolding find_param_end
find_param_end_stop s {n} h =
    let (k, at_k, within, stop) = scan_loop_stop start_flags s 0 n h in
    let e : n ≡ k = omega arith in rw e (within, stop)
