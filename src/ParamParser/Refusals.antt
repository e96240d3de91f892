-- ===== src/ParamParser/Refusals.antt =====
-- Which parameter a failure of the parameter parser names.
use ucxclient.Prelude.{
  ℕ, suc, ◌+◌, ◌≡◌, ◌↔◌, inl, inr, ap, sym, ◌∙◌, subst, Option, none, some, List, [], ◌∷◌, ◌++◌,
  arith, Bytes, Option_split,
}
use ucxclient.AtUtil.ParamEnd.{find_param_end}
use ucxclient.AtUtil.ParamEnd.Split.{Splits, only, comma, splits}
use ucxclient.ParamParser.{
  Arg, parse_param, Parsed, parsed, failed, store_first, parse_loop, parse_params,
}
use ucxclient.ParamParser.Rounds.{parse_loop-unfinished, parse_loop-only, parse_loop-comma}

-- The parameter at the position `k` is the first that cannot be read: the text from it on has no end of
-- a parameter, or its switch refuses it.
pub data Refusal : Bytes → ℕ → Bytes → ℕ → Type 0 where
  unfinished :
      (ch : ℕ) (fmt : Bytes) (before : ℕ) (s : Bytes)
      → find_param_end s ≡ none
      → Refusal (ch ∷ fmt) before s 1
  refuses :
      (ch : ℕ) (fmt : Bytes) (before : ℕ) {s p : Bytes} {rest : Option Bytes}
      → Splits s p rest
      → parse_param ch before p ≡ none
      → Refusal (ch ∷ fmt) before s 1
  later :
      (ch : ℕ) (fmt : Bytes) (before : ℕ) {s p rest : Bytes} {k : ℕ} (args : List Arg)
      → Splits s p (some rest)
      → parse_param ch before p ≡ some args
      → Refusal fmt 0 rest k
      → Refusal (ch ∷ fmt) before s (suc k)

-- The loop fails at the number of rounds before with the position of the refusal.
loop_refuses :
    {fmt : Bytes} {before : ℕ} {s : Bytes} {k : ℕ} (ret : ℕ)
    → Refusal fmt before s k
    → parse_loop fmt before s ret ≡ failed (ret + k)
loop_refuses ret (unfinished ch fmt before s e) = parse_loop-unfinished ch fmt before s ret e
loop_refuses ret (refuses ch fmt before (only p h) e) =
    parse_loop-only ch fmt before p ret h ∙ ground (arith, e)
loop_refuses ret (refuses ch fmt before (comma p rest h) e) =
    parse_loop-comma ch fmt before p rest ret h ∙ ground (arith, e)
loop_refuses {k = suc k} ret (later ch fmt before args (comma p rest h) e r) =
    parse_loop-comma ch fmt before p rest ret h ∙ ground (arith, e, loop_refuses (ret + 1) r)

-- A failure is explained by a refusal.
data Explains (fmt : Bytes) (before : ℕ) (s : Bytes) (ret : ℕ) : Parsed → Type 0 where
  fine : (n : ℕ) (args : List Arg) → Explains fmt before s ret (parsed n args)
  refused_at : (k : ℕ) → Refusal fmt before s k → Explains fmt before s ret (failed (ret + k))

explain_later :
    (ch : ℕ) (fmt : Bytes) (before : ℕ) {s p rest : Bytes} (ret : ℕ) (args : List Arg)
    → Splits s p (some rest)
    → parse_param ch before p ≡ some args
    → {r : Parsed} → Explains fmt 0 rest (ret + 1) r
    → Explains (ch ∷ fmt) before s ret (store_first args r)
explain_later ch fmt before ret args sp e (fine n more) = fine n (args ++ more)
explain_later ch fmt before {s} ret args sp e (refused_at k h) =
    subst (λ n. Explains (ch ∷ fmt) before s ret (failed n)) (omega arith)
      (refused_at (suc k) (later ch fmt before args sp e h))

explain_round :
    (ch : ℕ) (fmt : Bytes) (before : ℕ) (ret : ℕ) {s p : Bytes} {rest : Option Bytes}
    → ((t : Bytes) → Explains fmt 0 t (ret + 1) (parse_loop fmt 0 t (ret + 1)))
    → Splits s p rest
    → Explains (ch ∷ fmt) before s ret (parse_loop (ch ∷ fmt) before s ret)
explain_round ch fmt before ret others (only p h) =
    let P = Explains (ch ∷ fmt) before p ret in
    subst P (sym (parse_loop-only ch fmt before p ret h)) (
      Option_split P (parse_param ch before p)
        (λ e. refused_at 1 (refuses ch fmt before (only p h) e)) (λ args e. fine (ret + 1) args))
explain_round ch fmt before ret others (comma p rest h) =
    let P = Explains (ch ∷ fmt) before (p ++ b',' ∷ rest) ret in
    subst P (sym (parse_loop-comma ch fmt before p rest ret h)) (
      Option_split P (parse_param ch before p)
        (λ e. refused_at 1 (refuses ch fmt before (comma p rest h) e))
        (λ args e. explain_later ch fmt before ret args (comma p rest h) e (others rest)))

explain_loop :
    (fmt : Bytes) (before : ℕ) (s : Bytes) (ret : ℕ)
    → Explains fmt before s ret (parse_loop fmt before s ret)
explain_loop [] before s ret = unfold parse_loop in fine ret []
explain_loop (ch ∷ fmt) before s ret = elim (splits s) [
  | inl e ↦
      let P = Explains (ch ∷ fmt) before s ret in
      subst P (sym (parse_loop-unfinished ch fmt before s ret e))
        (refused_at 1 (unfinished ch fmt before s e))
  | inr (p, rest, sp) ↦ explain_round ch fmt before ret (λ t. explain_loop fmt 0 t (ret + 1)) sp
]

explained :
    (fmt : Bytes) (before : ℕ) (s : Bytes) {r : Parsed} (n : ℕ)
    → Explains fmt before s 0 r
    → r ≡ failed n
    → Refusal fmt before s n
explained fmt before s n (fine k args) e = absurd (ground (arith, e))
explained fmt before s n (refused_at k h) e =
    let q : k ≡ n = ground (arith, e) in subst (Refusal fmt before s) q h

-- The parser fails with `-k` exactly when the parameter at the position `k`, counted from 1, is the
-- first that cannot be read: all in front of it are, each for its character of the format, and there
-- the text has no end of a parameter (a quote, a bracket or an escape is left open) or the switch
-- refuses the parameter.
pub parse_params-Refusal :
    (fmt : Bytes) (before : ℕ) (s : Bytes) (k : ℕ)
    → (parse_params fmt before s ≡ failed k) ↔ Refusal fmt before s k
unfolding parse_params
parse_params-Refusal fmt before s k = (
  λ h. explained fmt before s k (explain_loop fmt before s 0) h,
  λ r. loop_refuses 0 r ∙ ap failed (omega arith),
)
