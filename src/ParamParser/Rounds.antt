-- ===== src/ParamParser/Rounds.antt =====
-- The rounds of the parameter parser, on a text that is split at its commas.
use ucxclient.Prelude.{
  ℕ, ◌+◌, ◌≡◌, refl, ap, none, some, [], ◌∷◌, ◌++◌, arith, Bytes, false, leb, length, take, drop,
  take-append, length-append,
}
use native.Mathlib.Nat.{suc-add}
use ucxclient.AtUtil.ParamEnd.{find_param_end}
use ucxclient.AtUtil.ParamEnd.Scan.{find_param_end-append}
use ucxclient.AtUtil.ParamEnd.Split.{IsComplete}
use ucxclient.ParamParser.{parse_param, parsed, failed, store_first, parse_loop}

pub parse_loop-unfinished :
    (ch : ℕ) (fmt : Bytes) (before : ℕ) (s : Bytes) (ret : ℕ)
    → find_param_end s ≡ none
    → parse_loop (ch ∷ fmt) before s ret ≡ failed (ret + 1)
unfolding parse_loop
parse_loop-unfinished ch fmt before s ret e = ground (arith, e)

take_all : (s : Bytes) → take (length s) s ≡ s
take_all [] = refl
take_all (c ∷ s) = ap (λ t. c ∷ t) (take_all s)

drop_comma : (p rest : Bytes) → drop (length p + 1) (p ++ b',' ∷ rest) ≡ rest
drop_comma [] rest = refl
drop_comma (c ∷ p) rest = rw (suc-add (length p) 1) (drop_comma p rest)

leb_comma : (p rest : Bytes) → leb (length (p ++ b',' ∷ rest)) (length p) ≡ false
leb_comma p rest = ground (arith, length-append p (b',' ∷ rest))

-- The round at the last parameter of a text.
pub parse_loop-only :
    (ch : ℕ) (fmt : Bytes) (before : ℕ) (s : Bytes) (ret : ℕ)
    → IsComplete s
    → parse_loop (ch ∷ fmt) before s ret ≡ (elim (parse_param ch before s) [
      | none ↦ failed (ret + 1)
      | some args ↦ parsed (ret + 1) args
    ])
unfolding parse_loop
parse_loop-only ch fmt before s ret e = ground (arith, e, take_all s)

-- The round at a parameter with a comma behind it.
pub parse_loop-comma :
    (ch : ℕ) (fmt : Bytes) (before : ℕ) (p rest : Bytes) (ret : ℕ)
    → IsComplete p
    → parse_loop (ch ∷ fmt) before (p ++ b',' ∷ rest) ret ≡ (elim (parse_param ch before p) [
      | none ↦ failed (ret + 1)
      | some args ↦ store_first args (parse_loop fmt 0 rest (ret + 1))
    ])
unfolding parse_loop
parse_loop-comma ch fmt before p rest ret e = ground (
  arith,
  find_param_end-append p rest e,
  take-append p (b',' ∷ rest),
  drop_comma p rest,
  leb_comma p rest,
)
