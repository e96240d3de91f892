-- ===== src/UcxApi/Selection.antt =====
-- The form of a response that the functions of UcxApi/Variant select.
use ucxclient.Prelude.{
  ℕ, suc, ◌+◌, ◌≡◌, refl, ap, sym, ◌∙◌, subst, true, not, none, some, List, [], ◌∷◌, ◌++◌, map,
  arith, Bytes, codes, All, NoNul, length, set, Option_split, if_both, if_true, ◌==◌, length-append,
}
use ucxclient.Prelude.Int.{ℤ, pos}
use ucxclient.AtUtil.ParamEnd.{find_param_end}
use ucxclient.AtUtil.ParamEnd.Scan.{find_param_end-append}
use ucxclient.AtUtil.ParamEnd.Split.{IsComplete}
use ucxclient.ParamParser.{
  Arg, digit_arg, parse_param, Parsed, parsed, failed, store_first, parse_loop, parse_params,
  replace_char,
}
use ucxclient.ParamParser.Rounds.{parse_loop-comma}
use native.Mathlib.Nat.{suc-add}
use ucxclient.AtClient.Send.{Param, digit}
use ucxclient.ParamParser.Printed.{
  param_char, param_arg, param_text, IsReadable, param_text-IsComplete, parse_param-param_text,
}
use ucxclient.ParamParser.RoundTrip.{params_text, parse_params-params_text}
use ucxclient.UcxApi.Variant.{first_end, second_line, select, parse_variant}

-- A loop with a character of the format left counts one more round at least.
data Counts (n : ℕ) : Parsed → Type 0 where
  counts : (k : ℕ) (args : List Arg) → Counts n (parsed (n + k) args)
  fails : (k : ℕ) → Counts n (failed k)

counts_more : (n : ℕ) {r : Parsed} → Counts (n + 1) r → Counts n r
counts_more n (counts k args) =
    subst (λ m. Counts n (parsed m args)) (omega arith) (counts (suc k) args)
counts_more n (fails k) = fails k

counts_stored : (n : ℕ) (args : List Arg) {r : Parsed} → Counts n r → Counts n (store_first args r)
counts_stored n args (counts k more) = counts k (args ++ more)
counts_stored n args (fails k) = fails k

round-Counts :
    (ch : ℕ) (fmt : Bytes) (before : ℕ) (s : Bytes) (ret : ℕ)
    → ((t : Bytes) → Counts (ret + 1) (parse_loop fmt 0 t (ret + 1)))
    → Counts (ret + 1) (parse_loop (ch ∷ fmt) before s ret)
unfolding parse_loop
round-Counts ch fmt before s ret others =
    let P = Counts (ret + 1) in
    Option_split P (find_param_end s) (λ e. fails (ret + 1))
      (λ n e.
        Option_split P (parse_param ch before _) (λ e'. fails (ret + 1))
          (λ args e'.
            if_both P _ (subst (λ m. P (parsed m args)) (omega arith) (counts 0 args))
              (counts_stored (ret + 1) args (others _))))

parse_loop-Counts :
    (fmt : Bytes) (before : ℕ) (s : Bytes) (ret : ℕ) → Counts ret (parse_loop fmt before s ret)
parse_loop-Counts [] before s ret =
    unfold parse_loop in subst (λ m. Counts ret (parsed m [])) (omega arith) (counts 0 [])
parse_loop-Counts (ch ∷ fmt) before s ret =
    counts_more ret (round-Counts ch fmt before s ret (λ t. parse_loop-Counts fmt 0 t (ret + 1)))

-- What makes the two parsings return.
returns_false :
    (cases : List (ℤ × Bytes)) (junk : ℤ) (before : ℕ) (line : Bytes) {r : Parsed}
    → parse_params (codes "-d") before line ≡ r
    → Counts 2 r
    → parse_variant (codes "-d") cases junk before line ≡ none
unfolding parse_variant
returns_false cases junk before line e (counts k args) =
    let more : not (2 + k == 1) ≡ true = ground arith in
    rw (parse_variant, e) (if_true (λ x. x ≡ none) _ more refl)
returns_false cases junk before line e (fails k) = rw (parse_variant, e) refl

two_counts :
    (p rest : Bytes) (before : ℕ)
    → IsComplete p
    → Counts 2 (parse_params (codes "-d") before (p ++ b',' ∷ rest))
unfolding parse_params parse_param
two_counts p rest before h =
    subst (Counts 2) (sym (parse_loop-comma b'-' (b'd' ∷ []) before p rest 0 h))
      (counts_stored 2 [] (round-Counts b'd' [] 0 rest 1 (λ t. parse_loop-Counts [] 0 t 2)))

-- With the format "-d" a response of two parameters or more is not parsed a second time, whatever the
-- parameters are: the first parsing returns at least 2.
pub parse_variant-skipped :
    (cases : List (ℤ × Bytes)) (junk : ℤ) (before : ℕ) (p rest : Bytes)
    → IsComplete p
    → parse_variant (codes "-d") cases junk before (p ++ b',' ∷ rest) ≡ none
parse_variant-skipped cases junk before p rest h =
    returns_false cases junk before (p ++ b',' ∷ rest) refl (two_counts p rest before h)

set_comma : (p rest : Bytes) → set (p ++ b',' ∷ rest) (length p) 0 ≡ p ++ 0 ∷ rest
set_comma [] rest = refl
set_comma (c ∷ p) rest = ap (λ t. c ∷ t) (set_comma p rest)

replace_char-NoNul :
    (s rest : Bytes) (n : ℕ)
    → NoNul s
    → replace_char (s ++ rest) (length s + n) 0 b',' ≡ s ++ replace_char rest n 0 b','
unfolding replace_char
replace_char-NoNul [] rest n h = ap (λ k. replace_char rest k 0 b',') (omega arith)
replace_char-NoNul (c ∷ s) rest n (hc, hs) =
    rw (suc-add (length s) n) (ground (arith, hc, replace_char-NoNul s rest n hs))

replace_char_same : (s : Bytes) → NoNul s → replace_char s (length s) 0 b',' ≡ s
unfolding replace_char
replace_char_same [] h = refl
replace_char_same (c ∷ s) (hc, hs) = ground (arith, hc, replace_char_same s hs)

-- The second parsing sees the response as it came.
second_line_same :
    (p rest : Bytes)
    → IsComplete p
    → NoNul p
    → NoNul rest
    → second_line (p ++ b',' ∷ rest) ≡ p ++ b',' ∷ rest
unfolding second_line first_end
second_line_same p rest h np nr =
    let cut : first_end (p ++ b',' ∷ rest) ≡ p ++ 0 ∷ rest =
      rw (first_end, find_param_end-append p rest h) (set_comma p rest) in
    let size : length (p ++ b',' ∷ rest) ≡ length p + suc (length rest) =
      omega (arith, length-append p (b',' ∷ rest)) in
    let tail : replace_char (0 ∷ rest) (suc (length rest)) 0 b',' ≡ b',' ∷ rest =
      unfold replace_char in ap (λ t. b',' ∷ t) (replace_char_same rest nr) in
    rw (cut, size) (replace_char-NoNul p (0 ∷ rest) (suc (length rest)) np ∙ ap (λ t. p ++ t) tail)

first_value :
    (v : ℤ) (rest : Bytes) (before : ℕ)
    → IsReadable (digit v)
    → parse_params (codes "d") before (param_text (digit v) ++ b',' ∷ rest)
      ≡ parsed 1 (digit_arg v ∷ [])
unfolding parse_params
first_value v rest before h =
    parse_loop-comma b'd' [] before (param_text (digit v)) rest 0
      (param_text-IsComplete (digit v) h)
    ∙ unfold parse_loop in ground (arith, parse_param-param_text (digit v) before h)

-- A response whose first value `v` selects the format of all its values, with the format "d" for the
-- first parsing: it is parsed to these values, as it was sent.
pub parse_variant-selects :
    (cases : List (ℤ × Bytes)) (junk v : ℤ) (q : Param) (params : List Param) (before : ℕ)
    → All IsReadable (digit v ∷ q ∷ params)
    → NoNul (param_text (digit v))
    → NoNul (params_text (q ∷ params))
    → select cases v ≡ some (map param_char (digit v ∷ q ∷ params))
    → parse_variant (codes "d") cases junk before (params_text (digit v ∷ q ∷ params))
      ≡ some (pos (length (digit v ∷ q ∷ params)), map param_arg (digit v ∷ q ∷ params))
unfolding parse_variant
parse_variant-selects cases junk v q params before h np nr sel =
    let line = params_text (digit v ∷ q ∷ params) in
    let second = parse_params-params_text (digit v ∷ q ∷ params) before h in
    rw
      (
        parse_variant,
        first_value v (params_text (q ∷ params)) before h.0,
        sel,
        second_line_same (param_text (digit v)) (params_text (q ∷ params))
            (param_text-IsComplete (digit v) h.0) np nr,
        second,
      )
      refl
