-- ===== src/AtUtil/ParamEnd/Split.antt =====
-- The tokenizer splits a text at commas: the parameter in front and what follows it.
use ucxclient.Prelude.{
  ℕ, ◌+◌, ◌≡◌, ◌⊎◌, inl, inr, refl, ap, sym, ◌∙◌, subst, Option, none, some, [], ◌∷◌, ◌++◌, arith,
  Bytes, length, Option-cases,
}
use ucxclient.AtUtil.ParamEnd.{Flags, scan_char, scan_end, scan_loop, start_flags, find_param_end}
use ucxclient.AtUtil.ParamEnd.Scan.{scan_char-none}

-- A text that is one parameter by itself.
abbrev pub IsComplete : Bytes → Type 0
IsComplete p = find_param_end p ≡ some (length p)

-- The parameter in front of a text, and the text behind its comma if there is one.
pub data Splits : Bytes → Bytes → Option Bytes → Type 0 where
  only : (p : Bytes) → IsComplete p → Splits p p none
  comma : (p rest : Bytes) → IsComplete p → Splits (p ++ b',' ∷ rest) p (some rest)

scan_end_pos : (f : Flags) {pos n : ℕ} → scan_end f pos ≡ some n → n ≡ pos
unfolding scan_end
scan_end_pos f h = ground (arith, h)

scan_loop_splits :
    (f : Flags) (s : Bytes) (pos n : ℕ)
    → scan_loop f s pos ≡ some n
    → (p : Bytes) × (n ≡ pos + length p)
      × (scan_loop f p pos ≡ some n)
      × ((s ≡ p) ⊎ ((rest : Bytes) × (s ≡ p ++ b',' ∷ rest)))
unfolding scan_loop
scan_loop_splits f [] pos n h = ([], omega (arith, scan_end_pos f h), h, inl refl)
scan_loop_splits f (c ∷ s) pos n h = elim (Option-cases (scan_char f c)) [
  | inl e ↦
      let h' : scan_end f pos ≡ some n = ground (arith, e, h) in
      ([], omega (arith, scan_end_pos f h'), h', inr (s, ap (λ d. d ∷ s) (scan_char-none f c e)))
  | inr (f', e) ↦
      let (p, at, h', q) = scan_loop_splits f' s (pos + 1) n (ground (arith, e, h)) in
      (
        c ∷ p,
        omega arith,
        ground (arith, e, h'),
        elim q [ inl r ↦ inl (ap (λ t. c ∷ t) r) | inr (rest, r) ↦ inr (rest, ap (λ t. c ∷ t) r) ],
      )
]

-- A text is no parameters at all, or it has one in front.
pub splits :
    (s : Bytes)
    → (find_param_end s ≡ none) ⊎ ((p : Bytes) × (rest : Option Bytes) × Splits s p rest)
unfolding find_param_end
splits s = elim (Option-cases (find_param_end s)) [
  | inl e ↦ inl e
  | inr (n, h) ↦
      let (p, at, h', q) = scan_loop_splits start_flags s 0 n h in
      let n_eq : n ≡ length p = omega arith in
      let is_param : IsComplete p = h' ∙ ap some n_eq in
      elim q [
        | inl e ↦ inr (p, none, subst (λ t. Splits t p none) (sym e) (only p is_param))
        | inr (rest, e) ↦
            inr (p, some rest, subst (λ t. Splits t p (some rest)) (sym e) (comma p rest is_param))
      ]
]
